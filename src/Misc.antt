-- ===== src/Misc.antt =====
-- util/misc.c: the helpers on bytes and text. A C string is the list of its character codes.
pub mod Digits
pub mod Atoi
use mathlib.Core.List.{reverse}
use minieap.Prelude.{
  ℕ, zero, suc, ◌+◌, ◌-◌, ◌*◌, ◌/◌, ◌%◌, Bool, true, false, ◌&&◌, List, [], ◌∷◌, Option, none, some,
  leb, ltb, ◌==◌, if◌then◌else◌, get_or, take, bit_and, bit_or, Bytes, u8, ◌<<◌, ◌>>>◌,
}
use minieap.Prelude.Int.{ℤ, pos, negsuc}

abbrev pub half_reverse_table : Bytes
half_reverse_table =
    0x0 ∷ 0x8 ∷ 0x4 ∷ 0xc ∷ 0x2 ∷ 0xa ∷ 0x6 ∷ 0xe ∷ 0x1 ∷ 0x9 ∷ 0x5 ∷ 0xd ∷ 0x3 ∷ 0xb ∷ 0x7 ∷ 0xf
    ∷ []

unfoldable pub bit_reverse : ℕ → ℕ
bit_reverse b = u8 (
    bit_or (get_or half_reverse_table (bit_and b 0xf) 0 << 4)
      (get_or half_reverse_table (bit_and b 0xf0 >>> 4) 0))

-- The `tolower` of the C locale.
abbrev pub tolower : ℕ → ℕ
tolower c = if leb b'A' c && leb c b'Z' then c + 32 else c

-- A `char` is signed: a code from 128 on is below 'a'. `c - '0'` is taken modulo 256.
abbrev pub lower2hex : ℕ → ℕ
lower2hex c = if leb b'a' c && ltb c 128 then 10 + (c - b'a') else c + 256 - b'0'

unfoldable pub char2hex : (str0 str1 : ℕ) → ℕ
char2hex str0 str1 =
    if str1 == 0
    then u8 (lower2hex (tolower str0))
    else u8 (16 * lower2hex (tolower str0) + lower2hex (tolower str1))

abbrev pub hex2lower : ℕ → ℕ
hex2lower digit = if leb 0xa digit then digit - 0xa + b'a' else digit + b'0'

unfoldable pub hex2char : ℕ → ℕ × ℕ
hex2char hex = (hex2lower (bit_and hex 0xf0 >>> 4), hex2lower (bit_and hex 0xf))

-- The digits that the first loop writes, lowest first. A round divides by `radix`, so a value
-- has at most `val + 1` digits, which is the fuel.
unfoldable pub fill_digits : (fuel val radix : ℕ) → Bytes
fill_digits zero val radix = []
fill_digits (suc fuel) val radix =
    let rest = fill_digits fuel (val / radix) radix in
    hex2lower (val % radix) ∷ (if val / radix == 0 then [] else rest)

-- The '-' is written to `buf[0]`, where the first digit then goes.
unfoldable pub my_itoa : ℤ → (radix : ℕ) → Bytes
unfolding fill_digits
my_itoa (pos val) radix = reverse (fill_digits (suc val) val radix)
my_itoa (negsuc n) radix = reverse (fill_digits (suc (suc n)) (suc n) radix)

-- The loop of `shortopt2longindex` over the `val` fields of the options; `none` is -1.
unfoldable pub find_index : (opt : ℕ) → (longopts : List ℕ) → (index : ℕ) → Option ℕ
find_index opt [] index = none
find_index opt (val ∷ longopts) index =
    if val == opt then some index else find_index opt longopts (index + 1)

unfoldable pub shortopt2longindex : (opt : ℕ) → (longopts : List ℕ) → Option ℕ
unfolding find_index
shortopt2longindex opt longopts = find_index opt longopts 0

-- `none` is the NULL pointer; allocation succeeds.
unfoldable pub memdup : Bytes → ℕ → Option Bytes
memdup src n = if leb n 0 then none else some (take n src)
