-- ===== src/Url/Parts.antt =====
-- The addresses that internet_check_parse_url takes apart.
use minieap.Prelude.{
  ℕ, suc, ◌+◌, ◌-◌, ◌*◌, ◌≤◌, ◌<◌, ◌≡◌, refl, ap, Bool, true, false, [], ◌∷◌, ◌++◌, some, All, ◌==◌,
  length, Bytes, arith, gt→leb, ge→ltb, ≢→==,
}
use minieap.Prelude.Int.{pos}
use minieap.Misc.{my_itoa}
use minieap.Misc.Digits.{IsDigit, decimal, decimal-my_itoa, my_itoa-IsDigit, my_itoa-nonempty}
use minieap.Url.{
  http, before_stop, from_stop, is_slash, is_host_end, is_digit, is_space, atoi_digits, atoi,
  parse_path, parse_port, internet_check_parse_url,
}

module _ (stop : ℕ → Bool) (y : ℕ) (ys : Bytes) (stops : stop y ≡ true) where
  before_stop-append :
      (xs : Bytes) → All (λ x. stop x ≡ false) xs → before_stop stop (xs ++ y ∷ ys) ≡ xs
  unfolding before_stop
  before_stop-append [] h = rw stops refl
  before_stop-append (x ∷ xs) h = rw (h.0) (ap (λ t. x ∷ t) (before_stop-append xs h.1))

  from_stop-append :
      (xs : Bytes) → All (λ x. stop x ≡ false) xs → from_stop stop (xs ++ y ∷ ys) ≡ y ∷ ys
  unfolding from_stop
  from_stop-append [] h = rw stops refl
  from_stop-append (x ∷ xs) h = rw (h.0) (from_stop-append xs h.1)

atoi_digits-append :
    (acc : ℕ) (xs : Bytes) (y : ℕ) (ys : Bytes)
    → All IsDigit xs
    → is_digit y ≡ false
    → atoi_digits acc (xs ++ y ∷ ys) ≡ decimal acc xs
unfolding atoi_digits decimal
atoi_digits-append acc [] y ys h other = rw other refl
atoi_digits-append acc (x ∷ xs) y ys h other =
    let digit : is_digit x ≡ true = ground (arith, h.0) in
    rw digit (atoi_digits-append (acc * 10 + (x - b'0')) xs y ys h.1 other)

not_slash : (xs : Bytes) → All IsDigit xs → All (λ x. is_slash x ≡ false) xs
not_slash [] h = tt
not_slash (x ∷ xs) h = (≢→== x b'/' (λ e. absurd (omega (arith, e, h.0.0))), not_slash xs h.1)

atoi-append :
    (x : ℕ) (xs : Bytes) (y : ℕ) (ys : Bytes)
    → All IsDigit (x ∷ xs)
    → is_digit y ≡ false
    → atoi (x ∷ (xs ++ y ∷ ys)) ≡ pos (decimal 0 (x ∷ xs))
unfolding atoi
atoi-append x xs y ys h other =
    let space : is_space x ≡ false = ground (arith, h.0) in
    let minus : (x == b'-') ≡ false = ≢→== x b'-' (λ e. absurd (omega (arith, e, h.0.0))) in
    let plus : (x == b'+') ≡ false = ≢→== x b'+' (λ e. absurd (omega (arith, e, h.0.0))) in
    rw (space, minus, plus) (ap pos (atoi_digits-append 0 (x ∷ xs) y ys h other))

port-parsed :
    (host digits path : Bytes) (port pathlen : ℕ)
    → All IsDigit digits
    → 0 < length digits
    → decimal 0 digits ≡ port
    → 1 ≤ port
    → port ≤ 65535
    → length path + 1 < pathlen
    → parse_port host (digits ++ b'/' ∷ path) pathlen
      ≡ some (record { host = host; port = port; path = b'/' ∷ path })
unfolding parse_port parse_path
port-parsed host [] path port pathlen h some_digits value low high room = absurd (omega arith)
port-parsed host (x ∷ xs) path port pathlen h some_digits value low high room =
    rw
      (
        (not_slash (x ∷ xs) h).0,
        atoi-append x xs b'/' path h refl,
        value,
        ge→ltb port 1 low,
        ge→ltb 65535 port high,
        from_stop-append is_slash b'/' path refl xs (not_slash xs h.1),
        gt→leb pathlen (suc (length path)) (omega (arith, room)),
      )
      refl

-- An address with a host of characters other than a slash and a colon, a port from 1 to 65535 in
-- decimal digits and a path is taken apart into these three, when host and path fit the buffers
-- with the NUL behind them.
pub internet_check_parse_url-parts :
    (host path : Bytes) (port hostlen pathlen : ℕ)
    → All (λ c. is_host_end c ≡ false) host
    → 0 < length host
    → length host < hostlen
    → 1 ≤ port
    → port ≤ 65535
    → length path + 1 < pathlen
    → internet_check_parse_url
        (http ++ (host ++ b':' ∷ (my_itoa (pos port) 10 ++ b'/' ∷ path)))
        hostlen
        pathlen
      ≡ some (record { host = host; port = port; path = b'/' ∷ path })
unfolding internet_check_parse_url
internet_check_parse_url-parts host path port hostlen pathlen plain some_host host_room low high
      path_room =
    let rest = my_itoa (pos port) 10 ++ b'/' ∷ path in
    rw
      (
        gt→leb hostlen 1 (omega (arith, some_host, host_room)),
        gt→leb pathlen 1 (omega (arith, path_room)),
        before_stop-append is_host_end b':' rest refl host plain,
        from_stop-append is_host_end b':' rest refl host plain,
        ≢→== (length host) 0 (λ e. absurd (omega (arith, e, some_host))),
        gt→leb hostlen (length host) (omega (arith, host_room)),
      )
      (port-parsed host (my_itoa (pos port) 10) path port pathlen (my_itoa-IsDigit port)
        (my_itoa-nonempty port) (decimal-my_itoa (pos port)) low high path_room)
