-- ===== src/Rjv3/Append/Serial.antt =====
-- A serial number that is longer than its field.
use minieap.Prelude.{
  codes, ◌+◌, ◌≡◌, ◌<◌, refl, ap, ◌∙◌, Bool, true, false, Option, none, some, arith, length, take,
  Bytes, length-take, gt→leb, if◌then◌else◌, ◌==◌, ◌||◌, get_elem?,
}
use minieap.Prelude.Maybe.{◌>>=◌}
use minieap.Frame.{EthEapFrame, write_bytes}
use minieap.Rjv3.Options.{RjOptions, rjv3_parse_one_opt}
use minieap.Rjv3.Session.{RjPriv, Net}
use minieap.Rjv3.Append.{
  Host, is_md5_frame, rjv3_set_pwd_hash, rjv3_set_secondary_dns, rjv3_set_v3_hash,
  rjv3_set_service_name, rjv3_append_priv_header, rjv3_set_hdd_serial, rjv3_append_common_fields,
}
use minieap.Rjv3.Append.Trailer.{rjv3_apply_bcast_addr, rjv3_append_priv, rjv3_prepare_frame}

bind-none :
    {A B : Type 0} (o : Option A) (f : A → Option B) → ((a : A) → f a ≡ none) → (o >>= f) ≡ none
bind-none none f h = refl
bind-none (some a) f h = h a

serial-none :
    (serial : Bytes) (host : Host)
    → 64 < length serial
    → rjv3_set_hdd_serial (some serial) host ≡ none
unfolding rjv3_set_hdd_serial write_bytes
serial-none serial host long =
    rw (gt→leb (0 + length (take 200 serial)) 64 (omega (arith, length-take 200 serial, long))) refl

module _ (host : Host) (net : Net) where
  fields-none :
      (s : RjPriv) (md5 : Bool)
      → rjv3_set_hdd_serial s.options.fake_serial host ≡ none
      → rjv3_append_common_fields host net s md5 ≡ none
  unfolding rjv3_append_common_fields
  fields-none s md5 h = bind-none (rjv3_set_pwd_hash host s.md5_request) _ λ pwd_hash.
      bind-none (rjv3_set_secondary_dns s.options.fake_dns2 net) _ λ sec_dns.
        bind-none (rjv3_set_v3_hash host s.md5_request) _
          λ v3_hash. bind-none (rjv3_set_service_name s.options.service_name) _ λ service. rw h refl

  prepare-none :
      (frame : EthEapFrame) (s : RjPriv)
      → rjv3_set_hdd_serial s.options.fake_serial host ≡ none
      → rjv3_append_priv host net s frame ≡ none
  unfolding rjv3_append_priv
  prepare-none frame s h = bind-none (rjv3_apply_bcast_addr s.options.bcast_addr frame) _ λ f1.
      bind-none (rjv3_append_priv_header net s f1) _
        λ f2. bind-none (is_md5_frame (some f2)) _ λ md5. rw (fields-none s md5 h) refl

-- The option takes a serial number of more than 64 bytes, and copies up to 200 of them to a field
-- of 64: each frame that the plugin then prepares has a write behind that field.
pub fake_serial-none :
    (argument : Bytes) (options : RjOptions)
    → 64 < length argument
    → (options' : RjOptions) × (rjv3_parse_one_opt (codes "fake-serial") argument options
        ≡ some (record { ok = true; options = options' }))
      × ((host : Host) (net : Net) (frame : EthEapFrame) (s : RjPriv)
          → s.options.fake_serial ≡ options'.fake_serial
          → rjv3_prepare_frame host net frame s ≡ none)
unfolding rjv3_parse_one_opt rjv3_prepare_frame
fake_serial-none argument options long =
    let serial = take 200 argument in
    let cut : 64 < length serial = omega (arith, length-take 200 argument, long) in
    (
      record options { fake_serial = some serial },
      refl,
      λ host net frame s same. bind-none (get_elem? frame.content 15) _ λ type.
          rw
            (prepare-none host net frame
              (if type == 1 || type == 2 then record s { md5_request = none } else s)
              (ap (λ o. rjv3_set_hdd_serial o host) (kept s (type == 1 || type == 2) ∙ same)
                ∙ serial-none serial host cut))
            refl,
    )
  where
    kept :
        (s : RjPriv) (b : Bool)
        → (if b then record s { md5_request = none } else s).options.fake_serial
          ≡ s.options.fake_serial
    kept s true = refl
    kept s false = refl
