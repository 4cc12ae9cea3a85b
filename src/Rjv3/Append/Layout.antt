-- ===== src/Rjv3/Append/Layout.antt =====
-- How the properties of an outgoing frame are laid out.
use minieap.Prelude.{ℕ, ◌+◌, ◌-◌, List, ◌++◌, length, replicate, Bytes}
use minieap.Rjv3.Prop.Layout.{Entry, wire}

-- The bytes that are put behind the header of the properties: a gap of `delta` zero bytes stands
-- between the plugin's own properties and those from the command line.
abbrev pub with_gap : (es cs : List Entry) (delta : ℕ) → Bytes
with_gap es cs delta = wire es ++ (replicate delta 0 ++ wire cs)

abbrev pub total_len : (es cs : List Entry) (delta : ℕ) → ℕ
total_len es cs delta = delta + length (wire es) + length (wire cs)

-- What the buffer holds behind the first list, and from the offset of the second list on.
abbrev zeros_left : List Entry → Bytes
zeros_left es = replicate (1512 - length (wire es)) 0
