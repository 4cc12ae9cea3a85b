-- ===== src/Frame/Bounds.antt =====
-- What the helpers of util/packet_util.c do to a frame.
use minieap.Prelude.{
  ℕ, ◌+◌, ◌^◌, ◌≤◌, ◌<◌, ◌≡◌, Bool-cases, inl, inr, leb, Bool, true, false, ◌++◌, Option, none,
  some, leb, length, take, drop, Bytes, arith, take-append, take_all, take-append_add, ap, ◌∙◌,
  length-append, length-take, length-drop,
}
use minieap.Frame.{EthEapFrame, write_bytes, append_to_frame, frame_duplicate}

-- The lengths of a frame agree with its allocation. No allocation passes half the address space.
pub record IsFrame (f : EthEapFrame) : Type 0 where
  pub allocated : f.buffer_len ≤ length f.content
  pub used : f.actual_len ≤ f.buffer_len
  pub small : f.buffer_len < 2 ^ 63

-- The bytes in use.
abbrev pub used_bytes : EthEapFrame → Bytes
used_bytes f = take f.actual_len f.content

write_bytes-some :
    (buf : Bytes) (off : ℕ) (src : Bytes)
    → off + length src ≤ length buf
    → write_bytes buf off src ≡ some (take off buf ++ (src ++ drop (off + length src) buf))
unfolding write_bytes
write_bytes-some buf off src h = ground arith

-- The frame that holds `src` behind the bytes in use.
unfoldable pub extended : EthEapFrame → Bytes → EthEapFrame
extended f src = record f {
  content = take f.actual_len f.content ++ (src ++ drop (f.actual_len + length src) f.content);
  actual_len = f.actual_len + length src;
}

-- The two ways in which `append_to_frame` returns.
pub data Appended (f : EthEapFrame) (src : Bytes) : Option (Bool × EthEapFrame) → Type 0 where
  fits :
      (g : EthEapFrame)
      → f.actual_len + length src ≤ f.buffer_len
      → IsFrame g
      → used_bytes g ≡ used_bytes f ++ src
      → Appended f src (some (true, g))
  refused : f.buffer_len < f.actual_len + length src → Appended f src (some (false, f))

module _ (f : EthEapFrame) (src : Bytes) (v : IsFrame f) where
  pub append_to_frame-extended :
      f.actual_len + length src ≤ f.buffer_len → append_to_frame f src ≡ some (true, extended f src)
  unfolding append_to_frame extended
  append_to_frame-extended h = ground (arith, write_bytes-some f.content f.actual_len src)

  pub extended-IsFrame : f.actual_len + length src ≤ f.buffer_len → IsFrame (extended f src)
  unfolding extended
  extended-IsFrame h = record {
    allocated = rw (length-append, length-append, length-take, length-drop) (omega arith);
    used = h;
    small = v.small;
  }

  pub extended-used_bytes :
      f.actual_len + length src ≤ f.buffer_len → used_bytes (extended f src) ≡ used_bytes f ++ src
  unfolding extended
  extended-used_bytes h =
      let whole : length (take f.actual_len f.content) ≡ f.actual_len =
        omega (arith, length-take f.actual_len f.content) in
      take-append_add (take f.actual_len f.content)
        (src ++ drop (f.actual_len + length src) f.content) (f.actual_len + length src) (length src)
        (omega arith)
      ∙ ap (λ t. take f.actual_len f.content ++ t)
          (take-append src (drop (f.actual_len + length src) f.content))

  -- Data that fits is put behind the bytes in use, inside the allocation, and the frame stays well
  -- formed; data that does not fit is refused and the frame is left alone. No other case arises
  -- for data of less than 2 ^ 63 bytes.
  pub append_to_frame-Appended : length src < 2 ^ 63 → Appended f src (append_to_frame f src)
  append_to_frame-Appended short =
      elim (Bool-cases (leb (f.actual_len + length src) f.buffer_len)) [
        | inl room ↦
            let h : f.actual_len + length src ≤ f.buffer_len = ground (arith, room) in
            rw (append_to_frame-extended h)
              (fits (extended f src) h (extended-IsFrame h) (extended-used_bytes h))
        | inr full ↦
            let h : f.buffer_len < f.actual_len + length src = ground (arith, full) in
            rw (refuse h) (refused h)
      ]
    where
      refuse : f.buffer_len < f.actual_len + length src → append_to_frame f src ≡ some (false, f)
      refuse h = unfold append_to_frame in ground arith

-- A duplicate has no room behind its bytes, though it states the room of the original: an
-- extension by any data that would fit the original writes outside the allocation.
pub frame_duplicate-no_room :
    (f : EthEapFrame) (src : Bytes)
    → IsFrame f
    → 0 < length src
    → f.actual_len + length src ≤ f.buffer_len
    → append_to_frame (frame_duplicate f) src ≡ none
unfolding append_to_frame frame_duplicate write_bytes
frame_duplicate-no_room f src v some_data h = ground (arith, length-take f.actual_len f.content)

-- The copy has the bytes in use of the original.
pub frame_duplicate-used_bytes : (f : EthEapFrame) → used_bytes (frame_duplicate f) ≡ used_bytes f
unfolding frame_duplicate
frame_duplicate-used_bytes f =
    take_all f.actual_len (take f.actual_len f.content)
      (omega (arith, length-take f.actual_len f.content))
