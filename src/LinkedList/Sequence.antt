-- ===== src/LinkedList/Sequence.antt =====
-- What the operations of util/linkedlist.c do to the sequence of contents.
use minieap.Prelude.{
  ◌≡◌, refl, ap, Bool, false, List, [], ◌∷◌, ◌++◌, none, Bool-cases, inl, inr, All,
}
use minieap.LinkedList.{link_last, insert_data, list_concat, lookup_data, remove_data}

module _ {ℓ} {A : Type ℓ} where
  link_last-append : (xs ys : List A) → link_last xs ys ≡ xs ++ ys
  unfolding link_last
  link_last-append [] ys = refl
  link_last-append (x ∷ []) ys = refl
  link_last-append (x ∷ y ∷ xs) ys = ap (λ t. x ∷ t) (link_last-append (y ∷ xs) ys)

  pub insert_data-append : (xs : List A) (x : A) → insert_data xs x ≡ xs ++ x ∷ []
  unfolding insert_data
  insert_data-append [] x = refl
  insert_data-append (y ∷ ys) x = link_last-append (y ∷ ys) (x ∷ [])

  pub list_concat-append : (xs ys : List A) → list_concat xs ys ≡ xs ++ ys
  unfolding list_concat
  list_concat-append [] ys = refl
  list_concat-append (x ∷ xs) ys = link_last-append (x ∷ xs) ys

module _ {ℓ κ} {A : Type ℓ} {E : Type κ} (e : E) (cmp : E → A → Bool) where
  -- `remove_data` takes out every match: `lookup_data` finds none in what it leaves.
  pub lookup_data-remove_data : (xs : List A) → lookup_data (remove_data xs e cmp) e cmp ≡ none
  unfolding lookup_data remove_data
  lookup_data-remove_data [] = refl
  lookup_data-remove_data (x ∷ xs) = elim (Bool-cases (cmp e x)) [
    | inl hit ↦ rw hit (lookup_data-remove_data xs)
    | inr miss ↦ rw (miss, miss) (lookup_data-remove_data xs)
  ]

  pub All-remove_data : (xs : List A) → All (λ x. cmp e x ≡ false) (remove_data xs e cmp)
  unfolding remove_data
  All-remove_data [] = tt
  All-remove_data (x ∷ xs) = elim (Bool-cases (cmp e x)) [
    | inl hit ↦ rw hit (All-remove_data xs)
    | inr miss ↦ rw miss (miss, All-remove_data xs)
  ]

  pub remove_data_id : (xs : List A) → All (λ x. cmp e x ≡ false) xs → remove_data xs e cmp ≡ xs
  unfolding remove_data
  remove_data_id [] h = refl
  remove_data_id (x ∷ xs) h = rw (h.0) (ap (λ t. x ∷ t) (remove_data_id xs h.1))

  pub remove_data-append :
      (xs ys : List A) → remove_data (xs ++ ys) e cmp ≡ remove_data xs e cmp ++ remove_data ys e cmp
  unfolding remove_data
  remove_data-append [] ys = refl
  remove_data-append (x ∷ xs) ys = elim (Bool-cases (cmp e x)) [
    | inl hit ↦ rw hit (remove_data-append xs ys)
    | inr miss ↦ rw miss (ap (λ t. x ∷ t) (remove_data-append xs ys))
  ]

  pub All-remove_data_keep {μ} :
      (P : A → Type μ) (xs : List A) → All P xs → All P (remove_data xs e cmp)
  unfolding remove_data
  All-remove_data_keep P [] h = tt
  All-remove_data_keep P (x ∷ xs) h = elim (Bool-cases (cmp e x)) [
    | inl hit ↦ rw hit (All-remove_data_keep P xs h.1)
    | inr miss ↦ rw miss (h.0, All-remove_data_keep P xs h.1)
  ]
