-- ===== src/Conf/Lookup.antt =====
-- Looking up what was set in the dictionary.
use minieap.Prelude.{
  ℕ, ◌≡◌, ◌<◌, refl, ap, ap₂, sym, ◌∙◌, true, false, Bool-cases, inl, inr, List, [], ◌∷◌, ◌++◌,
  Option, none, some, Option-cases, if◌then◌else◌, ◌==◌, length, Bytes, arith, gt→leb, ==_iff, ≡→==,
}
use minieap.LinkedList.{lookup_data}
use minieap.LinkedList.Sequence.{insert_data-append}
use minieap.Plugins.{text_eq}
use minieap.Conf.{
  Conf, ConfigPair, conf_pair_key_cmpfunc, update_value, conf_parser_add_value,
  conf_parser_get_value, conf_parser_set_value,
}

pub text_eq_self : (xs : Bytes) → text_eq xs xs ≡ true
text_eq_self [] = refl
text_eq_self (x ∷ xs) = rw (≡→== x x refl) (text_eq_self xs)

pub text_eq-eq : (xs ys : Bytes) → text_eq xs ys ≡ true → xs ≡ ys
text_eq-eq [] [] h = refl
text_eq-eq [] (y ∷ ys) h = absurd (cc)
text_eq-eq (x ∷ xs) [] h = absurd (cc)
text_eq-eq (x ∷ xs) (y ∷ ys) h = elim (Bool-cases (x == y)) [
  | inl same ↦ ap₂ ◌∷◌ ((==_iff x y).0 same) (text_eq-eq xs ys (rw same at h))
  | inr other ↦ absurd (ground (arith, other, h))
]

abbrev find : Bytes → List ConfigPair → Option ConfigPair
find key list = lookup_data list key conf_pair_key_cmpfunc

find-update_value :
    (key value : Bytes) (list : List ConfigPair) (pair : ConfigPair)
    → find key list ≡ some pair
    → find key (update_value key value list) ≡ some (record pair { value = value })
unfolding lookup_data update_value
find-update_value key value [] pair e = absurd (cc)
find-update_value key value (first ∷ list) pair e = elim (Bool-cases (text_eq key first.key)) [
  | inl hit ↦
      rw (hit, hit)
        (ap
          (λ (o : Option ConfigPair). elim o [
            | none ↦ none
            | some p ↦ some (record p { value = value })
          ])
          (rw hit at e))
  | inr miss ↦ rw (miss, miss) (find-update_value key value list pair (rw miss at e))
]

find-update_value_other :
    (key other value : Bytes) (list : List ConfigPair)
    → text_eq other key ≡ false
    → find other (update_value key value list) ≡ find other list
unfolding lookup_data update_value
find-update_value_other key other value [] ne = refl
find-update_value_other key other value (first ∷ list) ne =
    elim (Bool-cases (text_eq key first.key)) [
      | inl hit ↦
          let miss : text_eq other first.key ≡ false =
            ap (text_eq other) (sym (text_eq-eq key first.key hit)) ∙ ne in
          rw (hit, miss) refl
      | inr past ↦ rw past (
          ap (λ o. if text_eq other first.key then some first else o)
            (find-update_value_other key other value list ne))
    ]

find-append :
    (key : Bytes) (list : List ConfigPair) (pair : ConfigPair)
    → find key list ≡ none
    → find key (list ++ pair ∷ []) ≡ (if text_eq key pair.key then some pair else none)
unfolding lookup_data
find-append key [] pair e = refl
find-append key (first ∷ list) pair e = elim (Bool-cases (text_eq key first.key)) [
  | inl hit ↦ absurd (ground (arith, hit, e))
  | inr miss ↦ rw miss (find-append key list pair (rw miss at e))
]

find-append_other :
    (key : Bytes) (list : List ConfigPair) (pair : ConfigPair)
    → text_eq key pair.key ≡ false
    → find key (list ++ pair ∷ []) ≡ find key list
unfolding lookup_data
find-append_other key [] pair ne = rw ne refl
find-append_other key (first ∷ list) pair ne =
    ap (λ o. if text_eq key first.key then some first else o) (find-append_other key list pair ne)

-- `conf_parser_set_value` with a key in the dictionary or not: `conf_parser_get_value` then gives
-- the value for the key, to each buffer that has room for it and its NUL, and for all other keys
-- what it gave before.
pub get-set_value :
    (key value : Bytes) (c : Conf)
    → (d : Conf) × (conf_parser_set_value key value c ≡ (d, true))
      × ((buflen : ℕ) → length value < buflen → conf_parser_get_value key buflen d ≡ some value)
      × ((other : Bytes) (buflen : ℕ)
          → text_eq other key ≡ false
          → conf_parser_get_value other buflen d ≡ conf_parser_get_value other buflen c)
unfolding conf_parser_set_value conf_parser_get_value conf_parser_add_value
get-set_value key value c = elim (Option-cases (find key c.conf_list)) [
  | inl new ↦
      let pair : ConfigPair = record { key = key; value = value } in
      let list = c.conf_list ++ pair ∷ [] in
      let found : find key list ≡ some pair =
        find-append key c.conf_list pair new ∙ rw (text_eq_self key) refl in
      (
        record c { conf_list = list },
        rw (new, conf_parser_set_value, insert_data-append c.conf_list pair) refl,
        λ buflen room. rw (found, conf_parser_get_value, gt→leb buflen (length value) room) refl,
        λ other buflen ne.
            rw (find-append_other other c.conf_list pair ne, conf_parser_get_value) refl,
      )
  | inr (pair, old) ↦ (
    record c { conf_list = update_value key value c.conf_list },
    rw (old, conf_parser_set_value) refl,
    λ buflen room.
        rw
          (
            find-update_value key value c.conf_list pair old,
            conf_parser_get_value,
            gt→leb buflen (length value) room,
          )
          refl,
    λ other buflen ne.
        rw (find-update_value_other key other value c.conf_list ne, conf_parser_get_value) refl,
  )
]
