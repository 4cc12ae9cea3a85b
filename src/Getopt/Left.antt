-- ===== src/Getopt/Left.antt =====
-- What the calls of compat/getopt.c have left of the arguments.
use minieap.Prelude.{
  ℕ, zero, suc, ◌+◌, ◌≤◌, ◌≡◌, refl, sym, ap, ◌∙◌, Bool-cases, inl, inr, List, [], ◌∷◌, Option,
  none, some, Option-cases, length, drop, get_elem?, Bytes, arith,
}
use minieap.Getopt.{Getopt, Call}
use minieap.Getopt.Calls.{cursor_at, is_option, skip_arguments}

-- The bytes of the arguments, with one more for each.
abbrev pub weight : List Bytes → ℕ
weight [] = 0
weight (a ∷ args) = suc (length a) + weight args

abbrev pub cursor_weight : Option Bytes → ℕ
cursor_weight none = 0
cursor_weight (some rest) = length rest

-- What is left to be looked at.
abbrev pub left : List Bytes → Getopt → ℕ
left argv st = cursor_weight st.optcursor + weight (drop st.optind argv)

pub drop_next :
    (argv : List Bytes) (i : ℕ) → weight (drop (i + 1) argv) ≡ weight (drop (suc i) argv)
drop_next argv i = let e : i + 1 ≡ suc i = omega arith in ap (λ k. weight (drop k argv)) e

pub weight-drop_later :
    (argv : List Bytes) (i : ℕ) → weight (drop (suc i) argv) ≤ weight (drop i argv)
weight-drop_later [] zero = omega arith
weight-drop_later [] (suc i) = omega arith
weight-drop_later (a ∷ args) zero = omega arith
weight-drop_later (a ∷ args) (suc i) = weight-drop_later args i

pub weight-next :
    (argv : List Bytes) (i : ℕ) (a : Bytes)
    → get_elem? argv i ≡ some a
    → weight (drop i argv) ≡ suc (length a) + weight (drop (suc i) argv)
weight-next [] i a e = absurd (cc)
weight-next (b ∷ args) zero a e = ap (λ t. suc (length t) + weight args) (some_inj e)
  where
    some_inj : {A : Type 0} {x y : A} → some x ≡ some y → x ≡ y
    some_inj e = cc
weight-next (b ∷ args) (suc i) a e = weight-next args i a e

pub never : {P : Type 0} {n : ℕ} → none ≡ some n → P
never e = absurd (cc)

-- A call that gives an option leaves no more than `n`.
abbrev pub Leaves : (argv : List Bytes) → ℕ → Call → Type 0
Leaves argv n call = left argv call.after ≤ n

pub length-cursor_at : (rest : Bytes) → cursor_weight (cursor_at rest) ≡ length rest
length-cursor_at [] = refl
length-cursor_at (c ∷ cs) = refl

pub get_elem?-drop :
    {A : Type 0} (xs : List A) (k n : ℕ) → get_elem? xs (k + n) ≡ get_elem? (drop k xs) n
get_elem?-drop xs zero n = let e : zero + n ≡ n = omega arith in ap (get_elem? xs) e
get_elem?-drop [] (suc k) n = refl
get_elem?-drop (x ∷ xs) (suc k) n =
    let e : suc k + n ≡ suc (k + n) = omega arith in
    ap (get_elem? (x ∷ xs)) e ∙ get_elem?-drop xs k n

pub weight-drop_add :
    (argv : List Bytes) (k n : ℕ) → weight (drop (k + n) argv) ≤ weight (drop k argv)
weight-drop_add argv k zero =
    let e : k + 0 ≡ k = omega arith in omega (arith, ap (λ i. weight (drop i argv)) e)
weight-drop_add argv k (suc n) =
    let e : k + suc n ≡ suc (k + n) = omega arith in
    omega (
      arith,
      ap (λ i. weight (drop i argv)) e,
      weight-drop_later argv (k + n),
      weight-drop_add argv k n,
    )

abbrev element : List Bytes → Option (ℕ × Bytes) → Option Bytes
element args none = none
element args (some r) = get_elem? args r.0

abbrev argument : Option (ℕ × Bytes) → Option Bytes
argument none = none
argument (some r) = some r.1

nothing_found : {r : ℕ × Bytes} → none ≡ some r → ⊥
nothing_found e = cc

-- The argument that the loop finds stands where it says.
pub skip_arguments-at :
    (args : List Bytes) (n : ℕ) (found : Bytes)
    → skip_arguments args ≡ some (n, found)
    → get_elem? args n ≡ some found
unfolding skip_arguments
skip_arguments-at [] n found e = absurd (cc)
skip_arguments-at (arg ∷ args) n found e = elim (Bool-cases (is_option arg)) [
  | inl option ↦
      let q : some (0, arg) ≡ some (n, found) = rw (option, skip_arguments) at e in
      ap (element (arg ∷ args)) (sym q) ∙ ap argument q
  | inr other ↦ elim (Option-cases (skip_arguments args)) [
    | inl nothing ↦ absurd (nothing_found (rw (other, nothing, skip_arguments) at e))
    | inr ((m, f), later) ↦
        let q : some (suc m, f) ≡ some (n, found) = rw (other, later, skip_arguments) at e in
        ap (element (arg ∷ args)) (sym q) ∙ skip_arguments-at args m f later ∙ ap argument q
  ]
]
