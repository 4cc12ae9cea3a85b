-- ===== src/LinkedList.antt =====
-- util/linkedlist.c. A chain of nodes is the list of their contents, in order; a function that
-- updates the reference to the first node returns the new list.
pub mod Sequence
use minieap.Prelude.{Bool, List, [], ◌∷◌, Option, none, some, if◌then◌else◌}

module _ {ℓ} {A : Type ℓ} where
  -- `find_last_node` and the write to the `next` field of the node that it returns.
  unfoldable pub link_last : List A → List A → List A
  link_last [] rest = rest
  link_last (x ∷ []) rest = x ∷ rest
  link_last (x ∷ y ∷ xs) rest = x ∷ link_last (y ∷ xs) rest

  unfoldable pub insert_node : List A → A → List A
  unfolding link_last
  insert_node [] node = node ∷ []
  insert_node (x ∷ xs) node = link_last (x ∷ xs) (node ∷ [])

  unfoldable pub insert_data : List A → A → List A
  unfolding insert_node
  insert_data start content = insert_node start content

  unfoldable pub list_concat : List A → List A → List A
  unfolding link_last
  list_concat [] new_list = new_list
  list_concat (x ∷ xs) new_list = link_last (x ∷ xs) new_list

  unfoldable pub list_destroy : List A → List A
  list_destroy start = []

  -- `cmpfunc` says whether the source's comparison returns 0.
  unfoldable pub lookup_data {κ} : {E : Type κ} → List A → E → (E → A → Bool) → Option A
  lookup_data [] elem cmpfunc = none
  lookup_data (x ∷ xs) elem cmpfunc = if cmpfunc elem x then some x else lookup_data xs elem cmpfunc

  unfoldable pub remove_data {κ} : {E : Type κ} → List A → E → (E → A → Bool) → List A
  remove_data [] elem cmpfunc = []
  remove_data (x ∷ xs) elem cmpfunc =
      let rest = remove_data xs elem cmpfunc in if cmpfunc elem x then rest else x ∷ rest

  -- `func` may change the node's content and the state behind `user`.
  unfoldable pub list_traverse {κ} :
      {S : Type κ}
      → List A
      → (A → S → record { content : A; user : S })
      → S
      → record { list : List A; user : S }
  list_traverse [] func user = record { list = []; user = user }
  list_traverse (x ∷ xs) func user =
      let first = func x user in
      let rest = list_traverse xs func first.user in
      record { list = first.content ∷ rest.list; user = rest.user }
