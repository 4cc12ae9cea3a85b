-- ===== src/Url.antt =====
-- `internet_check_parse_url` of util/internet_check.c. Text is the list of its characters, without
-- the NUL, and the pointers that it tests are not NULL.
pub mod Parts
use minieap.Prelude.{
  ℕ, ◌+◌, ◌-◌, ◌*◌, Bool, true, false, not, ◌&&◌, ◌||◌, List, [], ◌∷◌, Option, none, some, leb, ltb,
  ◌==◌, if◌then◌else◌, length, take, drop, Bytes,
}
use minieap.Prelude.Int.{ℤ, pos, negsuc}
use minieap.Prelude.Maybe.{◌>>=◌}
use minieap.Plugins.{text_eq}

-- What is written through `host`, `port` and `path`.
pub record Url : Type 0 where
  pub host : Bytes
  pub port : ℕ
  pub path : Bytes

abbrev pub http : Bytes
http = b'h' ∷ b't' ∷ b't' ∷ b'p' ∷ b':' ∷ b'/' ∷ b'/' ∷ []

-- The text in front of the first character that stops the loop.
unfoldable pub before_stop : (stop : ℕ → Bool) → Bytes → Bytes
before_stop stop [] = []
before_stop stop (c ∷ cs) = let rest = before_stop stop cs in if stop c then [] else c ∷ rest

-- The text from that character on.
unfoldable pub from_stop : (stop : ℕ → Bool) → Bytes → Bytes
from_stop stop [] = []
from_stop stop (c ∷ cs) = let rest = from_stop stop cs in if stop c then c ∷ cs else rest

abbrev pub is_slash : ℕ → Bool
is_slash c = c == b'/'

abbrev pub is_host_end : ℕ → Bool
is_host_end c = c == b'/' || c == b':'

-- `atoi` of the C library: blanks, a sign, and the digits up to the first other character.
abbrev pub is_digit : ℕ → Bool
is_digit c = leb b'0' c && leb c b'9'

abbrev pub is_space : ℕ → Bool
is_space c = c == 32 || (leb 9 c && leb c 13)

unfoldable pub atoi_digits : (acc : ℕ) → Bytes → ℕ
atoi_digits acc [] = acc
atoi_digits acc (c ∷ cs) =
    let rest = atoi_digits (acc * 10 + (c - b'0')) cs in if is_digit c then rest else acc

abbrev pub atoi_signed : Bytes → ℤ
atoi_signed [] = pos 0
atoi_signed (c ∷ cs) =
    if c == b'-'
    then (if atoi_digits 0 cs == 0 then pos 0 else negsuc (atoi_digits 0 cs - 1))
    else pos (if c == b'+' then atoi_digits 0 cs else atoi_digits 0 (c ∷ cs))

unfoldable pub atoi : Bytes → ℤ
unfolding atoi_digits
atoi [] = pos 0
atoi (c ∷ cs) = let rest = atoi cs in if is_space c then rest else atoi_signed (c ∷ cs)

unfoldable pub parse_path :
    (host : Bytes) → (port : ℕ) → (host_end : Bytes) → (pathlen : ℕ) → Option Url
parse_path host port [] pathlen = some (record { host = host; port = port; path = b'/' ∷ [] })
parse_path host port (c ∷ cs) pathlen =
    if is_slash c
    then (if leb pathlen (length (c ∷ cs))
        then none
        else some (record { host = host; port = port; path = c ∷ cs }))
    else none

abbrev pub port_of : ℤ → Option ℕ
port_of (pos n) = if ltb n 1 || ltb 65535 n then none else some n
port_of (negsuc n) = none

-- The text behind the colon.
unfoldable pub parse_port : (host : Bytes) → (port_start : Bytes) → (pathlen : ℕ) → Option Url
unfolding atoi from_stop parse_path
parse_port host [] pathlen = none
parse_port host (c ∷ cs) pathlen = if is_slash c then none else (do
  port ← port_of (atoi (c ∷ cs))
  parse_path host port (from_stop is_slash (c ∷ cs)) pathlen)

abbrev pub parse_host_end : (host : Bytes) → (host_end : Bytes) → (pathlen : ℕ) → Option Url
parse_host_end host [] pathlen = parse_path host 80 [] pathlen
parse_host_end host (c ∷ cs) pathlen =
    if c == b':' then parse_port host cs pathlen else parse_path host 80 (c ∷ cs) pathlen

-- `none` is FAILURE. The tests of the first character are covered by the test of the host's length.
unfoldable pub internet_check_parse_url : (url : Bytes) → (hostlen pathlen : ℕ) → Option Url
unfolding before_stop from_stop parse_port parse_path
internet_check_parse_url url hostlen pathlen =
    let p = drop 7 url in
    let host = before_stop is_host_end p in
    if leb hostlen 1 || leb pathlen 1
    then none
    else if text_eq (take 7 url) http
    then (if length host == 0 || leb hostlen (length host)
        then none
        else parse_host_end host (from_stop is_host_end p) pathlen)
    else none
