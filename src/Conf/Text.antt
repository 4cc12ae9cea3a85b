-- ===== src/Conf/Text.antt =====
-- What the string helpers of util/conf_parser.c do to a line.
use minieap.Prelude.{
  ℕ, zero, suc, ◌+◌, ◌≤◌, ◌≡◌, ◌≢◌, ◌⊎◌, refl, ap, true, false, Bool-cases, inl, inr, [], ◌∷◌, ◌++◌,
  none, some, All, ◌==◌, length, Bytes, arith, ==_iff, ≢→==,
}
use minieap.Conf.{is_space, rtrim, keep_unless_blank, strchr, until_nul, fgets}

-- Neither the end of a string nor the end of a line.
abbrev pub IsPlain : ℕ → Type 0
IsPlain c = (c ≢ 0) × (c ≢ b'\n')

-- A string whose only newline is its last byte.
abbrev pub IsLine : Bytes → Type 0
IsLine [] = Unit
IsLine (c ∷ cs) = (c ≢ 0) × ((c == b'\n') ≡ true → cs ≡ []) × IsLine cs

keep-visible : (c : ℕ) (rest : Bytes) → is_space c ≡ false → keep_unless_blank c rest ≡ c ∷ rest
keep-visible c [] h = rw h refl
keep-visible c (d ∷ rest) h = refl

pub rtrim-visible : (c : ℕ) (cs : Bytes) → is_space c ≡ false → rtrim (c ∷ cs) ≡ c ∷ rtrim cs
unfolding rtrim
rtrim-visible c cs h = keep-visible c (rtrim cs) h

pub rtrim-append_space : (xs : Bytes) (c : ℕ) → is_space c ≡ true → rtrim (xs ++ c ∷ []) ≡ rtrim xs
unfolding rtrim
rtrim-append_space [] c h = rw h refl
rtrim-append_space (x ∷ xs) c h = ap (keep_unless_blank x) (rtrim-append_space xs c h)

pub rtrim_twice : (xs : Bytes) → rtrim (rtrim xs) ≡ rtrim xs
unfolding rtrim
rtrim_twice [] = refl
rtrim_twice (x ∷ xs) = kept (rtrim xs) (rtrim_twice xs)
  where
    kept : (r : Bytes) → rtrim r ≡ r → rtrim (keep_unless_blank x r) ≡ keep_unless_blank x r
    kept [] e = elim (Bool-cases (is_space x)) [
      | inl blank ↦ rw blank refl
      | inr visible ↦ rw (visible, rtrim, visible) refl
    ]
    kept (y ∷ r) e = ap (keep_unless_blank x) e

pub length-rtrim : (xs : Bytes) → length (rtrim xs) ≤ length xs
unfolding rtrim
length-rtrim [] = omega arith
length-rtrim (x ∷ xs) = kept (rtrim xs) (length-rtrim xs)
  where
    kept : (r : Bytes) → length r ≤ length xs → length (keep_unless_blank x r) ≤ suc (length xs)
    kept [] h = ground arith
    kept (y ∷ r) h = omega arith

-- Trimming takes the newline away.
pub rtrim-IsPlain : (xs : Bytes) → IsLine xs → All IsPlain (rtrim xs)
unfolding rtrim
rtrim-IsPlain [] v = tt
rtrim-IsPlain (x ∷ xs) v = elim (Bool-cases (x == b'\n')) [
  | inl newline ↦ rw (v.1 newline) (let nl : x ≡ b'\n' = (==_iff x b'\n').0 newline in rw nl tt)
  | inr other ↦
      let plain : IsPlain x = (v.0, ground arith) in kept (rtrim xs) plain (rtrim-IsPlain xs v.2)
]
  where
    kept : (r : Bytes) → IsPlain x → All IsPlain r → All IsPlain (keep_unless_blank x r)
    kept [] plain h = elim (Bool-cases (is_space x)) [
      | inl blank ↦ rw blank tt
      | inr visible ↦ rw visible (plain, tt)
    ]
    kept (y ∷ r) plain h = (plain, h)

-- The first '=' is where the strings meet, if it is not in the first one.
pub strchr-append :
    (c : ℕ) (xs ys : Bytes)
    → All (λ x. (x == c) ≡ false) xs
    → strchr c (xs ++ c ∷ ys) ≡ some (xs, c ∷ ys)
unfolding strchr
strchr-append c [] ys h = ground arith
strchr-append c (x ∷ xs) ys h = rw (h.0, strchr-append c xs ys h.1) refl

-- How a string that has the byte is cut.
pub record IsCut (c : ℕ) (xs : Bytes) (split : Bytes × Bytes) : Type 0 where
  pub behind : Bytes
  pub found : split.1 ≡ c ∷ behind
  pub whole : xs ≡ split.0 ++ c ∷ behind
  pub first : All (λ x. (x == c) ≡ false) split.0

pub strchr-IsCut :
    (c : ℕ) (xs : Bytes)
    → (strchr c xs ≡ none) ⊎ ((s : Bytes × Bytes) × (strchr c xs ≡ some s) × IsCut c xs s)
unfolding strchr
strchr-IsCut c [] = inl refl
strchr-IsCut c (x ∷ xs) = elim (Bool-cases (x == c)) [
  | inl here ↦ inr (
    ([], x ∷ xs),
    rw here refl,
    record {
      behind = xs;
      found = ap (λ y. y ∷ xs) ((==_iff x c).0 here);
      whole = ap (λ y. y ∷ xs) ((==_iff x c).0 here);
      first = tt;
    },
  )
  | inr later ↦ elim (strchr-IsCut c xs) [
    | inl e ↦ inl (rw (later, e) refl)
    | inr (s, e, cut) ↦ inr (
      (x ∷ s.0, s.1),
      rw (later, e) refl,
      record {
        behind = cut.behind;
        found = cut.found;
        whole = ap (λ t. x ∷ t) cut.whole;
        first = (later, cut.first);
      },
    )
  ]
]

pub until_nul-append : (xs ys : Bytes) → All IsPlain xs → until_nul (xs ++ ys) ≡ xs ++ until_nul ys
unfolding until_nul
until_nul-append [] ys h = refl
until_nul-append (x ∷ xs) ys h = rw (≢→== x 0 h.0.0) (ap (λ t. x ∷ t) (until_nul-append xs ys h.1))

pub fgets_line :
    (xs rest : Bytes) (room : ℕ)
    → All IsPlain xs
    → length xs + 1 ≤ room
    → fgets room (xs ++ b'\n' ∷ rest) ≡ (xs ++ b'\n' ∷ [], rest)
unfolding fgets
fgets_line [] rest zero h room = absurd (omega arith)
fgets_line [] rest (suc n) h room = refl
fgets_line (x ∷ xs) rest zero h room = absurd (omega arith)
fgets_line (x ∷ xs) rest (suc n) h room =
    rw (≢→== x b'\n' h.0.1, fgets_line xs rest n h.1 (omega (arith, room))) refl

-- A line that fills the buffer is left there without its newline.
pub fgets_full :
    (xs rest : Bytes) (room : ℕ)
    → All IsPlain xs
    → length xs ≡ room
    → fgets room (xs ++ rest) ≡ (xs, rest)
unfolding fgets
fgets_full [] rest zero h room = refl
fgets_full [] rest (suc n) h room = absurd (omega (arith, room))
fgets_full (x ∷ xs) rest zero h room = absurd (omega (arith, room))
fgets_full (x ∷ xs) rest (suc n) h room =
    rw (≢→== x b'\n' h.0.1, fgets_full xs rest n h.1 (omega (arith, room))) refl
