-- ===== src/Rjv3/Encode.antt =====
-- rjv3_hashes/rjencode.c: the coding of bytes, each of which is complemented and mirrored.
use minieap.Prelude.{
  ℕ, zero, suc, ◌≤◌, length, take, drop, map, ◌++◌, Option, none, some, arith, ◌*◌, ◌≡◌, ◌<◌, refl,
  ap, true, [], ◌∷◌, bit_and, bit_or, Bytes, IsBytes, u8, not8, ◌<<◌, ◌>>>◌, ◌==◌, holds_below,
  holds_below-true, ==_iff,
}
use minieap.Prelude.Maybe.{◌>>=◌}
use minieap.Misc.{bit_reverse}

-- The body of the loop of `rj_encode`
abbrev pub encode_byte : ℕ → ℕ
encode_byte b = not8 (
    bit_or
      (bit_or
        (bit_or
          (bit_or
            (bit_or
              (bit_or (bit_or (bit_and b 0x10 >>> 1) (bit_and b 0x20 >>> 3)) (bit_and b 0x40 >>> 5))
              (b >>> 7))
            (bit_and b 8 << 1))
          (bit_and b 4 << 3))
        (bit_and b 2 << 5))
      (bit_and b 1 << 7))

-- The body of the loop of `rj_decode`. The masks cut `~buf[i]` to the low byte.
abbrev pub decode_byte : ℕ → ℕ
decode_byte b =
    let n = not8 b in
    u8 (
      bit_or
        (bit_or
          (bit_or
            (bit_or
              (bit_or
                (bit_or (bit_or (bit_and n 0x10 >>> 1) (bit_and n 0x20 >>> 3))
                  (bit_and n 0x40 >>> 5))
                (n >>> 7))
              (2 * bit_and n 8))
            (8 * bit_and n 4))
          (bit_and n 1 << 7))
        (32 * bit_and n 2))

-- `none` is an access behind the end of the buffer.
unfoldable pub rj_encode : Bytes → (len : ℕ) → Option Bytes
rj_encode buf zero = some buf
rj_encode [] (suc len) = none
rj_encode (b ∷ buf) (suc len) = do rest ← rj_encode buf len; some (encode_byte b ∷ rest)

unfoldable pub rj_decode : Bytes → (len : ℕ) → Option Bytes
rj_decode buf zero = some buf
rj_decode [] (suc len) = none
rj_decode (b ∷ buf) (suc len) = do rest ← rj_decode buf len; some (decode_byte b ∷ rest)

coding_table : holds_below 256 (λ b. decode_byte (encode_byte b) == b) ≡ true
unfolding holds_below
coding_table = refl

mirror_table : holds_below 256 (λ b. encode_byte b == not8 (bit_reverse b)) ≡ true
unfolding holds_below bit_reverse
mirror_table = refl

decode-encode : (b : ℕ) → b < 256 → decode_byte (encode_byte b) ≡ b
decode-encode b h = (==_iff _ b).0 (holds_below-true 256 _ b coding_table h)

encode-mirror : (b : ℕ) → b < 256 → encode_byte b ≡ not8 (bit_reverse b)
encode-mirror b h =
    (==_iff _ _).0
      (holds_below-true 256 (λ c. encode_byte c == not8 (bit_reverse c)) b mirror_table h)

-- Encoding complements and mirrors the first `len` bytes and leaves the others as they are, and
-- decoding gives back the bytes that were encoded.
pub rj_decode-rj_encode :
    (buf : Bytes) (len : ℕ)
    → IsBytes buf
    → len ≤ length buf
    → (rj_encode buf len ≡ some (map (λ b. not8 (bit_reverse b)) (take len buf) ++ drop len buf))
      × ((rj_encode buf len >>= λ coded. rj_decode coded len) ≡ some buf)
unfolding rj_encode rj_decode
rj_decode-rj_encode buf zero v h = (refl, refl)
rj_decode-rj_encode [] (suc len) v h = absurd (omega arith)
rj_decode-rj_encode (b ∷ buf) (suc len) v h =
    let (coded, back) = rj_decode-rj_encode buf len v.1 (omega arith) in
    (
      rw (coded) (
          ap (λ c. some (c ∷ (map (λ x. not8 (bit_reverse x)) (take len buf) ++ drop len buf)))
            (encode-mirror b v.0)),
      step (rj_encode buf len) back,
    )
  where
    step :
        (o : Option Bytes)
        → (o >>= λ coded. rj_decode coded len) ≡ some buf
        → ((o >>= λ rest. some (encode_byte b ∷ rest)) >>= λ coded. rj_decode coded (suc len))
          ≡ some (b ∷ buf)
    step none e = absurd (cc)
    step (some rest) e = rw (e) (ap (λ c. some (c ∷ buf)) (decode-encode b v.0))
