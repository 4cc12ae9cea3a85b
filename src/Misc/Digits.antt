-- ===== src/Misc/Digits.antt =====
-- What the helpers of util/misc.c compute.
use minieap.Prelude.{
  Bool, All, All-append, false, ℕ, zero, suc, ◌+◌, ◌-◌, ◌*◌, ◌/◌, ◌%◌, ◌^◌, ◌<◌, ◌≤◌, ◌≡◌, refl,
  ◌∙◌, true, ◌&&◌, [], ◌∷◌, ◌++◌, arith, leb, ◌==◌, length-append, ==_iff, if◌then◌else◌,
  holds_below, holds_below-true, Bytes, length,
}
use native.Mathlib.Nat.{pow-suc}
use mathlib.Core.List.{reverse, reverse-append}
use minieap.Prelude.Int.{ℤ, pos, negsuc}
use minieap.Misc.{hex2lower, bit_reverse, char2hex, hex2char, fill_digits, my_itoa}

reverse_table : holds_below 256 (λ x. bit_reverse (bit_reverse x) == x) ≡ true
unfolding holds_below bit_reverse
reverse_table = refl

pub bit_reverse_twice : (x : ℕ) → x < 256 → bit_reverse (bit_reverse x) ≡ x
bit_reverse_twice x h = (==_iff _ x).0 (holds_below-true 256 _ x reverse_table h)

-- Bit `i` of a number.
abbrev pub bit : ℕ → ℕ → ℕ
bit x i = x / 2 ^ i % 2

mirror_table :
    holds_below 256 (λ x. holds_below 8 (λ i. bit (bit_reverse x) i == bit x (7 - i))) ≡ true
unfolding holds_below bit_reverse
mirror_table = refl

-- `bit_reverse` mirrors a byte: bit `i` of the result is bit `7 - i` of the argument.
pub bit-bit_reverse : (x i : ℕ) → x < 256 → i < 8 → bit (bit_reverse x) i ≡ bit x (7 - i)
bit-bit_reverse x i h k = (==_iff _ _).0 (
    holds_below-true 8 (λ j. bit (bit_reverse x) j == bit x (7 - j)) i
      (holds_below-true 256 (λ y. holds_below 8 (λ j. bit (bit_reverse y) j == bit y (7 - j))) x
        mirror_table h)
      k)

-- The capital of a lower case letter.
abbrev pub upper : ℕ → ℕ
upper c = if leb b'a' c && leb c b'z' then c - 32 else c

hex_table : holds_below 256 (λ x. let (a, b) = hex2char x in char2hex a b == x) ≡ true
unfolding holds_below hex2char char2hex
hex_table = refl

-- A byte is read back from the two characters that `hex2char` prints for it.
pub char2hex-hex2char : (x : ℕ) → x < 256 → char2hex (hex2char x).0 (hex2char x).1 ≡ x
char2hex-hex2char x h = (==_iff _ x).0 (holds_below-true 256 _ x hex_table h)

-- The number that decimal characters stand for, first one first.
unfoldable pub decimal : (acc : ℕ) → Bytes → ℕ
decimal acc [] = acc
decimal acc (c ∷ cs) = decimal (acc * 10 + (c - b'0')) cs

low_first : Bytes → ℕ
low_first [] = 0
low_first (c ∷ cs) = c - b'0' + 10 * low_first cs

decimal-snoc :
    (acc : ℕ) (xs : Bytes) (c : ℕ) → decimal acc (xs ++ c ∷ []) ≡ decimal acc xs * 10 + (c - b'0')
unfolding decimal
decimal-snoc acc [] c = refl
decimal-snoc acc (x ∷ xs) c = decimal-snoc (acc * 10 + (x - b'0')) xs c

decimal-reverse : (xs : Bytes) → decimal 0 (reverse xs) ≡ low_first xs
unfolding decimal low_first
decimal-reverse [] = refl
decimal-reverse (x ∷ xs) =
    rw (reverse-append (x ∷ []) xs)
      (omega (arith, decimal-snoc 0 (reverse xs) x, decimal-reverse xs))

low_first-fill_digits : (fuel val : ℕ) → val < fuel → low_first (fill_digits fuel val 10) ≡ val
unfolding low_first fill_digits
low_first-fill_digits zero val h = absurd (omega arith)
low_first-fill_digits (suc fuel) val h = ground (arith, low_first-fill_digits fuel (val / 10))

abbrev pub abs : ℤ → ℕ
abs (pos n) = n
abs (negsuc n) = suc n

-- The decimal characters that `my_itoa` returns stand for the absolute value of its argument: the
-- sign of a negative value is lost.
pub decimal-my_itoa : (val : ℤ) → decimal 0 (my_itoa val 10) ≡ abs val
unfolding my_itoa
decimal-my_itoa (pos n) =
    decimal-reverse (fill_digits (suc n) n 10) ∙ low_first-fill_digits (suc n) n (omega arith)
decimal-my_itoa (negsuc n) =
    decimal-reverse (fill_digits (suc (suc n)) (suc n) 10)
    ∙ low_first-fill_digits (suc (suc n)) (suc n) (omega arith)

length-fill_digits : (k fuel val : ℕ) → val < 10 ^ suc k → length (fill_digits fuel val 10) ≤ suc k
unfolding fill_digits
length-fill_digits k zero val h = omega arith
length-fill_digits zero (suc fuel) val h = ground arith
length-fill_digits (suc k) (suc fuel) val h =
    ground (arith, length-fill_digits k fuel (val / 10) (omega (arith, pow-suc 10 (suc k))))

length-reverse : (xs : Bytes) → length (reverse xs) ≡ length xs
length-reverse [] = refl
length-reverse (x ∷ xs) =
    rw (reverse-append (x ∷ []) xs)
      (omega (arith, length-append (reverse xs) (x ∷ []), length-reverse xs))

-- A value of at most `k + 1` digits takes at most `k + 1` characters.
pub length-my_itoa : (k val : ℕ) → val < 10 ^ suc k → length (my_itoa (pos val) 10) ≤ suc k
unfolding my_itoa
length-my_itoa k val h = rw (length-reverse) (length-fill_digits k (suc val) val h)

hex_case_table :
    holds_below 256 (λ x. char2hex (upper (hex2char x).0) (upper (hex2char x).1) == x) ≡ true
unfolding holds_below hex2char char2hex
hex_case_table = refl

-- A decimal digit.
abbrev pub IsDigit : ℕ → Type 0
IsDigit c = (b'0' ≤ c) × (c ≤ b'9')

All-fill_digits : (fuel val : ℕ) → All IsDigit (fill_digits fuel val 10)
unfolding fill_digits
All-fill_digits zero val = tt
All-fill_digits (suc fuel) val =
    ((ground arith, ground arith), tail (val / 10 == 0) (All-fill_digits fuel (val / 10)))
  where
    tail :
        (b : Bool)
        → All IsDigit (fill_digits fuel (val / 10) 10)
        → All IsDigit (if b then [] else fill_digits fuel (val / 10) 10)
    tail true digits = tt
    tail false digits = digits

All-reverse : (xs : Bytes) → All IsDigit xs → All IsDigit (reverse xs)
All-reverse [] digits = tt
All-reverse (x ∷ xs) digits =
    rw (reverse-append (x ∷ []) xs)
      (All-append IsDigit (reverse xs) (x ∷ []) (All-reverse xs digits.1) (digits.0, tt))

pub my_itoa-IsDigit : (val : ℕ) → All IsDigit (my_itoa (pos val) 10)
unfolding my_itoa
my_itoa-IsDigit val = All-reverse (fill_digits (suc val) val 10) (All-fill_digits (suc val) val)

reverse-nonempty : (x : ℕ) (xs : Bytes) → 0 < length (reverse (x ∷ xs))
reverse-nonempty x xs =
    rw (reverse-append (x ∷ []) xs) (omega (arith, length-append (reverse xs) (x ∷ [])))

pub my_itoa-nonempty : (val : ℕ) → 0 < length (my_itoa (pos val) 10)
unfolding my_itoa fill_digits
my_itoa-nonempty val =
    reverse-nonempty (hex2lower (val % 10))
      (if val / 10 == 0 then [] else fill_digits val (val / 10) 10)
