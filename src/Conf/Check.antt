-- ===== src/Conf/Check.antt =====
-- A test for the pairs that a line of the configuration file can hold.
use minieap.Prelude.{
  ℕ, ◌+◌, ◌≡◌, refl, Bool, true, false, not, if◌then◌else◌, List, [], ◌∷◌, All, leb, ◌==◌, length,
  Bytes, arith,
}
use minieap.Plugins.{text_eq}
use minieap.Conf.{ConfigPair, is_space, rtrim}
use minieap.Conf.Text.{IsPlain}
use minieap.Conf.Saved.{Starts, IsSaveable}
use minieap.Conf.Lookup.{text_eq-eq}

abbrev pub all {ℓ} : {A : Type ℓ} → (A → Bool) → List A → Bool
all test [] = true
all test (x ∷ xs) = let rest = all test xs in if test x then rest else false

-- The same with both parts of a conjunction.
and_parts : (a b : Bool) → (if a then b else false) ≡ true → (a ≡ true) × (b ≡ true)
and_parts true b h = (refl, h)
and_parts false b h = absurd (cc)

pub all-All :
    {A : Type 0} {P : A → Type 0} (test : A → Bool) (xs : List A)
    → ((x : A) → test x ≡ true → P x)
    → all test xs ≡ true
    → All P xs
all-All test [] f h = tt
all-All test (x ∷ xs) f h =
    let (one, rest) = and_parts (test x) (all test xs) h in (f x one, all-All test xs f rest)

abbrev pub is_plain : ℕ → Bool
is_plain c = if c == 0 then false else not (c == b'\n')

abbrev pub starts : Bytes → Bool
starts [] = true
starts (c ∷ cs) = if is_space c then false else not (c == b'#')

abbrev pub is_saveable : ConfigPair → Bool
is_saveable pair =
    if all is_plain pair.key
    then (if all (λ c. not (c == b'=')) pair.key
        then (if starts pair.key
            then (if all is_plain pair.value
                then (if text_eq (rtrim pair.value) pair.value
                    then leb (length pair.key + 1 + length pair.value) 99
                    else false)
                else false)
            else false)
        else false)
    else false

is_plain-IsPlain : (c : ℕ) → is_plain c ≡ true → IsPlain c
is_plain-IsPlain c h = ground (arith, h)

starts-Starts : (key : Bytes) → starts key ≡ true → Starts key
starts-Starts [] h = tt
starts-Starts (c ∷ cs) h = ground (arith, h)

not-true : (b : Bool) → not b ≡ true → b ≡ false
not-true true h = absurd (cc)
not-true false h = refl

pub is_saveable-IsSaveable : (pair : ConfigPair) → is_saveable pair ≡ true → IsSaveable pair
is_saveable-IsSaveable pair h =
    let (key, h1) = and_parts (all is_plain pair.key) _ h in
    let (split, h2) = and_parts (all (λ c. not (c == b'=')) pair.key) _ h1 in
    let (start, h3) = and_parts (starts pair.key) _ h2 in
    let (value, h4) = and_parts (all is_plain pair.value) _ h3 in
    let (trimmed, h5) = and_parts (text_eq (rtrim pair.value) pair.value) _ h4 in
    record {
      key_plain = all-All is_plain pair.key is_plain-IsPlain key;
      key_split = all-All (λ c. not (c == b'=')) pair.key (λ c. not-true (c == b'=')) split;
      key_starts = starts-Starts pair.key start;
      value_plain = all-All is_plain pair.value is_plain-IsPlain value;
      value_trimmed = text_eq-eq (rtrim pair.value) pair.value trimmed;
      size = ground (arith, h5);
    }
