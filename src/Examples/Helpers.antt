-- ===== src/Examples/Helpers.antt =====
-- The helpers, the frames and the plugins on small inputs.
use minieap.Prelude.{◌++◌, ℕ, ◌+◌, ◌≡◌, refl, [], ◌∷◌, none, some, arith, ◌==◌}
use minieap.Prelude.Int.{pos, negsuc}
use minieap.Misc.{my_itoa}
use minieap.Url.{http, internet_check_parse_url}
use minieap.Url.Parts.{internet_check_parse_url-parts}
use minieap.Frame.{EthEapFrame, append_to_frame}
use minieap.Frame.Bounds.{IsFrame, Appended, append_to_frame-Appended}
use minieap.Plugins.{PacketPlugin}

-- The characters of 42, for -42 as well.
digits_of_42 : my_itoa (negsuc 41) 10 ≡ b'4' ∷ b'2' ∷ []
unfolding my_itoa
digits_of_42 = refl

-- Three bytes in a buffer of five.
abbrev small_frame : EthEapFrame
small_frame = record { actual_len = 3; buffer_len = 5; content = 1 ∷ 2 ∷ 3 ∷ 0 ∷ 0 ∷ [] }

small_frame-IsFrame : IsFrame small_frame
small_frame-IsFrame = record { allocated = omega arith; used = omega arith; small = omega arith }

append_to_frame-Appended_example :
    Appended small_frame (4 ∷ 5 ∷ 6 ∷ []) (append_to_frame small_frame (4 ∷ 5 ∷ 6 ∷ []))
append_to_frame-Appended_example =
    append_to_frame-Appended small_frame (4 ∷ 5 ∷ 6 ∷ []) small_frame-IsFrame (omega arith)

-- A plugin that counts the frames and fails from the second one on.
abbrev counting : PacketPlugin ℕ
counting = record {
  name = b'c' ∷ [];
  reset_session = none;
  validate_params = none;
  load_default_params = none;
  set_auth_round = none;
  destroy = none;
  process_cmdline_opts = none;
  process_config_file = none;
  save_config = none;
  prepare_frame = some (λ f n. some (record { ok = n == 0; frame = f; priv = n + 1 }));
  on_frame_received = none;
}

internet_check_parse_url-parts_example :
    internet_check_parse_url
      (http ++ (b'h' ∷ b'i' ∷ b':' ∷ (my_itoa (pos 8080) 10 ++ b'/' ∷ b'g' ∷ [])))
      16
      16
    ≡ some (record { host = b'h' ∷ b'i' ∷ []; port = 8080; path = b'/' ∷ b'g' ∷ [] })
internet_check_parse_url-parts_example =
    internet_check_parse_url-parts (b'h' ∷ b'i' ∷ []) (b'g' ∷ []) 8080 16 16 (refl, (refl, tt))
      (omega arith) (omega arith) (omega arith) (omega arith) (omega arith)

-- The number ends where the digits do, and what follows up to the slash is passed over.
port_with_letters :
    internet_check_parse_url (http ++ b'h' ∷ b':' ∷ b'8' ∷ b'0' ∷ b'x' ∷ b'/' ∷ []) 16 16
    ≡ some (record { host = b'h' ∷ []; port = 80; path = b'/' ∷ [] })
unfolding internet_check_parse_url
port_with_letters = refl
