-- ===== src/Misc/Atoi.antt =====
-- The `atoi` of the C library, and what it reads in the digits that `my_itoa` writes.
use minieap.Prelude.{
  ℕ, zero, suc, ◌+◌, ◌-◌, ◌*◌, ◌<◌, ◌≡◌, refl, ap, ◌∙◌, Bool, ◌&&◌, ◌||◌, [], ◌∷◌, All, leb, ◌==◌,
  if◌then◌else◌, length, Bytes, arith, le→leb,
}
use minieap.Prelude.Int.{ℤ, pos, negsuc}
use minieap.Misc.{my_itoa}
use minieap.Misc.Digits.{IsDigit, decimal, decimal-my_itoa, my_itoa-IsDigit, my_itoa-nonempty}

abbrev pub is_digit : ℕ → Bool
is_digit c = leb b'0' c && leb c b'9'

-- The digits up to the first other character.
unfoldable pub digits_value : (acc : ℕ) → Bytes → ℕ
digits_value acc [] = acc
digits_value acc (c ∷ cs) =
    let rest = digits_value (acc * 10 + (c - b'0')) cs in if is_digit c then rest else acc

abbrev pub negate : ℕ → ℤ
negate zero = pos 0
negate (suc n) = negsuc n

unfoldable pub signed_value : Bytes → ℤ
unfolding digits_value
signed_value [] = pos 0
signed_value (c ∷ cs) =
    if c == b'-'
    then negate (digits_value 0 cs)
    else if c == b'+'
    then pos (digits_value 0 cs)
    else pos (digits_value 0 (c ∷ cs))

-- Numbers are taken to fit an `int`.
unfoldable pub atoi : Bytes → ℤ
unfolding signed_value
atoi [] = pos 0
atoi (c ∷ cs) =
    let rest = atoi cs in if c == b' ' || (leb 9 c && leb c 13) then rest else signed_value (c ∷ cs)

digits_value-decimal :
    (acc : ℕ) (xs : Bytes) → All IsDigit xs → digits_value acc xs ≡ decimal acc xs
unfolding digits_value decimal
digits_value-decimal acc [] h = refl
digits_value-decimal acc (c ∷ cs) h =
    rw (le→leb b'0' c h.0.0, le→leb c b'9' h.0.1)
      (digits_value-decimal (acc * 10 + (c - b'0')) cs h.1)

atoi-digits : (xs : Bytes) → All IsDigit xs → 0 < length xs → atoi xs ≡ pos (digits_value 0 xs)
unfolding atoi signed_value
atoi-digits [] h n = absurd (omega arith)
atoi-digits (c ∷ cs) h n = ground (arith, h.0)

-- `atoi` reads back what `my_itoa` writes for a number that is not negative.
pub atoi-my_itoa : (n : ℕ) → atoi (my_itoa (pos n) 10) ≡ pos n
atoi-my_itoa n =
    atoi-digits (my_itoa (pos n) 10) (my_itoa-IsDigit n) (my_itoa-nonempty n)
    ∙ ap pos
        (digits_value-decimal 0 (my_itoa (pos n) 10) (my_itoa-IsDigit n) ∙ decimal-my_itoa (pos n))
