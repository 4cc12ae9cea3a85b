-- ===== src/Rjv3/Crc/Division.antt =====
-- The table of rjcrc16.c against the division that it stands for.
use native.Mathlib.Nat.{zero-add, suc-add}
use minieap.Prelude.Maybe.{◌>>=◌}
use minieap.Prelude.{
  ℕ, zero, suc, ◌+◌, ◌*◌, ◌/◌, ◌%◌, ◌^◌, ◌≤◌, ◌<◌, ◌≡◌, refl, ap, ◌∙◌, true, [], ◌∷◌, ◌++◌, some,
  arith, bit_xor, get_or, length, Bytes, ◌==◌, if◌then◌else◌, holds_below, holds_below-true, ==_iff,
}
use minieap.Rjv3.Crc.{crc16tab, crc16_step, crc16_from, crc16}

-- One bit of the division by the polynomial: the register is shifted, and reduced when a bit
-- leaves it.
abbrev pub shift_bit : ℕ → ℕ
shift_bit r = if r / 2 ^ 15 == 0 then r * 2 else bit_xor (r * 2 % 2 ^ 16) 0x1021

abbrev pub shift_bits : (n : ℕ) → ℕ → ℕ
shift_bits zero r = r
shift_bits (suc n) r = shift_bits n (shift_bit r)

table_check : holds_below 256 (λ i. get_or crc16tab i 0 == shift_bits 8 (i * 2 ^ 8)) ≡ true
unfolding holds_below
table_check = refl

-- Each entry of the table is the remainder that eight steps of the division leave of its index.
pub crc16tab-shift_bits : (i : ℕ) → i < 256 → get_or crc16tab i 0 ≡ shift_bits 8 (i * 2 ^ 8)
crc16tab-shift_bits i h =
    (==_iff _ _).0
      (holds_below-true 256 (λ j. get_or crc16tab j 0 == shift_bits 8 (j * 2 ^ 8)) i table_check h)

crc16_from-append :
    (xs ys : Bytes) (n crc : ℕ)
    → crc16_from (xs ++ ys) (length xs + n) crc
      ≡ (crc16_from xs (length xs) crc >>= crc16_from ys n)
unfolding crc16_from
crc16_from-append [] ys n crc = ap (λ k. crc16_from ys k crc) (zero-add n)
crc16_from-append (x ∷ xs) ys n crc =
    ap (λ k. crc16_from (x ∷ (xs ++ ys)) k crc) (suc-add (length xs) n)
    ∙ crc16_from-append xs ys n (crc16_step crc x)

step-bounded : (crc byte : ℕ) → crc16_step crc byte < 2 ^ 16
step-bounded crc byte = omega arith

from-bounded :
    (xs : Bytes) (len crc : ℕ)
    → len ≤ length xs
    → crc < 2 ^ 16
    → (r : ℕ) × (crc16_from xs len crc ≡ some r) × (r < 2 ^ 16)
unfolding crc16_from
from-bounded xs zero crc h small = (crc, refl, small)
from-bounded [] (suc len) crc h small = absurd (omega arith)
from-bounded (x ∷ xs) (suc len) crc h small =
    from-bounded xs len (crc16_step crc x) (omega arith) (step-bounded crc x)

-- The checksum of two pieces is that of the second one started with that of the first, and a
-- length inside the buffer gives a checksum of 16 bits.
pub crc16-append :
    (xs ys : Bytes) (n : ℕ)
    → n ≤ length ys
    → (r : ℕ) × (crc16 xs (length xs) ≡ some r)
      × (r < 2 ^ 16)
      × (crc16 (xs ++ ys) (length xs + n) ≡ crc16_from ys n r)
unfolding crc16
crc16-append xs ys n h =
    let (r, eq, small) = from-bounded xs (length xs) 0 (omega arith) (omega arith) in
    (r, eq, small, crc16_from-append xs ys n 0 ∙ ap (λ o. o >>= crc16_from ys n) eq)
