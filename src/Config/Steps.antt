-- ===== src/Config/Steps.antt =====
-- What reading back one saved option of config.c does.
use minieap.Prelude.{
  ℕ, ◌≤◌, ◌≡◌, refl, sym, ap, ◌∙◌, Bool, true, false, List, [], ◌∷◌, ◌++◌, Option, none, some, All,
  ◌==◌, length, take, take_all, get_or, Bytes, codes, arith, append_assoc, append-nil,
}
use minieap.Prelude.Int.{ℤ, pos}
use minieap.LinkedList.{list_traverse}
use minieap.LinkedList.Sequence.{insert_data-append}
use minieap.Misc.{my_itoa}
use minieap.Misc.Digits.{IsDigit, my_itoa-IsDigit, my_itoa-nonempty}
use minieap.Misc.Atoi.{atoi, atoi-my_itoa}
use minieap.Conf.{Conf, ConfigPair, conf_parser_add_value, conf_parser_traverse}
use minieap.Config.{Settings, Parsed, goes_on, parse_one_opt}
use minieap.Config.Saving.{
  parser_traverser, add_string, add_number, add_flag, save_active_packet_plugin_list,
}

-- An argument of an option: it is not empty, and no longer than the option's field.
abbrev pub IsArgument : (limit : ℕ) → Bytes → Type 0
IsArgument limit v = ((get_or v 0 0 == 0) ≡ false) × (length v ≤ limit)

abbrev pub IsSetting : (limit : ℕ) → Option Bytes → Type 0
IsSetting limit none = Unit
IsSetting limit (some v) = IsArgument limit v

abbrev pub IsCount : ℤ → Type 0
IsCount z = (n : ℕ) × (z ≡ pos n)

-- Where the options of the dictionary lead to from `s`.
abbrev pub Loads : Conf → Settings → Settings → Type 0
Loads c s t = conf_parser_traverse parser_traverser c (goes_on s) ≡ goes_on t

traverse-append :
    (list : List ConfigPair) (pair : ConfigPair) (p : Parsed)
    → (list_traverse
        (list ++ pair ∷ [])
        (λ x s. record { content = x; user = parser_traverser x s })
        p).user
      ≡ parser_traverser pair
          (list_traverse list (λ x s. record { content = x; user = parser_traverser x s }) p).user
unfolding list_traverse
traverse-append [] pair p = refl
traverse-append (x ∷ list) pair p = traverse-append list pair (parser_traverser x p)

pub add-step :
    (key v : Bytes) (c : Conf) (s t t' : Settings)
    → (get_or v 0 0 == 0) ≡ false
    → Loads c s t
    → parse_one_opt key (some v) t ≡ goes_on t'
    → Loads (add_string key (some v) c) s t'
unfolding conf_parser_add_value conf_parser_traverse parser_traverser
add-step key v c s t t' ne before one =
    let pair : ConfigPair = record { key = key; value = v } in
    ap
      (λ list.
        (list_traverse list (λ x p. record { content = x; user = parser_traverser x p })
          (goes_on s)).user)
      (insert_data-append c.conf_list pair)
    ∙ traverse-append c.conf_list pair (goes_on s)
    ∙ ap (parser_traverser pair) before
    ∙ rw ne one

-- A string: the option's field gets it, or keeps what it has.
pub string-step :
    (key : Bytes) (limit : ℕ) (o : Option Bytes) (c : Conf) (s t : Settings)
    (update : Option Bytes → Settings)
    → IsSetting limit o
    → ((v : Bytes) → parse_one_opt key (some v) t ≡ goes_on (update (some (take limit v))))
    → update none ≡ t
    → Loads c s t
    → Loads (add_string key o c) s (update o)
unfolding conf_parser_add_value
string-step key limit none c s t update h one keeps before = before ∙ ap goes_on (sym keeps)
string-step key limit (some v) c s t update h one keeps before =
    add-step key v c s t (update (some v)) h.0 before
      (one v ∙ ap (λ x. goes_on (update (some x))) (take_all limit v h.1))

digits-start : (xs : Bytes) → All IsDigit xs → ◌≤◌ 1 (length xs) → (get_or xs 0 0 == 0) ≡ false
digits-start [] h n = absurd (omega arith)
digits-start (c ∷ cs) h n = ground (arith, h.0)

-- A number that is not negative.
pub number-step :
    (key : Bytes) (z : ℤ) (c : Conf) (s t : Settings) (update : ℤ → Settings)
    → IsCount z
    → ((v : Bytes) → parse_one_opt key (some v) t ≡ goes_on (update (atoi v)))
    → Loads c s t
    → Loads (add_number key z c) s (update z)
number-step key z c s t update (n, e) one before = rw e (
    add-step key (my_itoa (pos n) 10) c s t (update (pos n))
      (digits-start (my_itoa (pos n) 10) (my_itoa-IsDigit n) (my_itoa-nonempty n)) before
      (one (my_itoa (pos n) 10) ∙ ap (λ x. goes_on (update x)) (atoi-my_itoa n)))

pub flag-step :
    (key : Bytes) (b : Bool) (c : Conf) (s t : Settings) (update : Bool → Settings)
    → parse_one_opt key (some (codes "1")) t ≡ goes_on (update true)
    → parse_one_opt key (some (codes "0")) t ≡ goes_on (update false)
    → Loads c s t
    → Loads (add_flag key b c) s (update b)
flag-step key true c s t update one nought before =
    add-step key (codes "1") c s t (update true) refl before one
flag-step key false c s t update one nought before =
    add-step key (codes "0") c s t (update false) refl before nought

-- The names of the plugins are put behind those that are there.
pub modules-step :
    (names : List Bytes) (c : Conf) (s t : Settings)
    → All (λ name. (get_or name 0 0 == 0) ≡ false) names
    → Loads c s t
    → Loads
        (save_active_packet_plugin_list names c)
        s
        (record t { packet_plugin_list = t.packet_plugin_list ++ names })
unfolding save_active_packet_plugin_list parse_one_opt
modules-step [] c s t h before =
    before
    ∙ ap (λ list. goes_on (record t { packet_plugin_list = list }))
        (sym (append-nil t.packet_plugin_list))
modules-step (name ∷ names) c s t h before =
    let t' : Settings = record t { packet_plugin_list = t.packet_plugin_list ++ name ∷ [] } in
    modules-step names (add_string (codes "module") (some name) c) s t' h.1 (
      add-step (codes "module") name c s t t' h.0 before (
        ap (λ list. goes_on (record t { packet_plugin_list = list }))
          (insert_data-append t.packet_plugin_list name)))
    ∙ ap (λ list. goes_on (record t { packet_plugin_list = list }))
        (append_assoc t.packet_plugin_list (name ∷ []) names)
