-- ===== src/Rjv3/Prop/FrameEnd.antt =====
-- append_rjv3_prop_to_frame: a property at the end of a frame.
use minieap.Prelude.{
  ◌+◌, ◌%◌, ◌^◌, ◌≤◌, ◌<◌, ◌≡◌, refl, ap, ◌∙◌, [], ◌∷◌, ◌++◌, some, length, take, Bytes, u8, arith,
  append_assoc, take_all, lt→ltb, ge→ltb,
}
use minieap.Prelude.Int.{pos}
use minieap.Frame.{EthEapFrame, size_t}
use minieap.Frame.Bounds.{
  IsFrame, used_bytes, extended, append_to_frame-extended, extended-IsFrame, extended-used_bytes,
}
use minieap.Rjv3.Prop.{append_content, append_parts, append_rjv3_prop_to_frame}
use minieap.Rjv3.Prop.Layout.{
  Entry, IsEntry, prop_for, entry_bytes, prop_for-fields, content_size, read_bytes-start,
}

abbrev head1 : Entry → Bytes
head1 e = 0x1a ∷ u8 (length e.content + 8) ∷ []

abbrev head2 : Entry → Bytes
head2 e = 0 ∷ 0 ∷ 0x13 ∷ 0x11 ∷ e.type ∷ (length e.content + 2) ∷ []

-- The frame with both headers behind its bytes.
abbrev with_headers : EthEapFrame → Entry → EthEapFrame
with_headers f e = extended (extended f (head1 e)) (head2 e)

headers-IsFrame :
    (f : EthEapFrame) (e : Entry)
    → IsFrame f
    → f.actual_len + 8 ≤ f.buffer_len
    → IsFrame (with_headers f e)
unfolding extended
headers-IsFrame f e v room =
    extended-IsFrame (extended f (head1 e)) (head2 e)
      (extended-IsFrame f (head1 e) v (omega (arith, room))) (omega (arith, room))

headers-used_bytes :
    (f : EthEapFrame) (e : Entry)
    → IsFrame f
    → f.actual_len + 8 ≤ f.buffer_len
    → used_bytes (with_headers f e) ≡ used_bytes f ++ (head1 e ++ head2 e)
unfolding extended
headers-used_bytes f e v room =
    extended-used_bytes (extended f (head1 e)) (head2 e)
      (extended-IsFrame f (head1 e) v (omega (arith, room))) (omega (arith, room))
    ∙ ap (λ t. t ++ head2 e) (extended-used_bytes f (head1 e) v (omega (arith, room)))
    ∙ append_assoc (used_bytes f) (head1 e) (head2 e)

-- What is left is the content.
to_content :
    (f : EthEapFrame) (e : Entry)
    → IsEntry e
    → IsFrame f
    → f.actual_len + 8 ≤ f.buffer_len
    → append_rjv3_prop_to_frame (prop_for e) f
      ≡ append_content (with_headers f e) e.content (pos (length e.content))
unfolding append_rjv3_prop_to_frame append_parts extended
to_content f e entry v room =
    ap (λ p. append_rjv3_prop_to_frame p f) (prop_for-fields e entry)
    ∙ rw
        (
          content_size (length e.content),
          append_to_frame-extended f (head1 e) v (omega (arith, room)),
          append_to_frame-extended (extended f (head1 e)) (head2 e)
              (extended-IsFrame f (head1 e) v (omega (arith, room))) (omega (arith, room)),
        )
        refl

-- A property whose content has at most 253 bytes is put behind the bytes of a frame that has room
-- for it, and the frame stays well formed.
pub append_rjv3_prop_to_frame-used_bytes :
    (f : EthEapFrame) (e : Entry)
    → IsEntry e
    → IsFrame f
    → f.actual_len + (8 + length e.content) ≤ f.buffer_len
    → (g : EthEapFrame) × (append_rjv3_prop_to_frame (prop_for e) f ≡ some g)
      × IsFrame g
      × (used_bytes g ≡ used_bytes f ++ entry_bytes e)
unfolding append_content extended
append_rjv3_prop_to_frame-used_bytes f e entry v room =
    let h = with_headers f e in
    let hv = headers-IsFrame f e v (omega (arith, room)) in
    let size : length e.content % 2 ^ 64 ≡ length e.content = omega (arith, entry.1) in
    let fits : h.actual_len + length e.content ≤ h.buffer_len = omega (arith, room) in
    (
      extended h e.content,
      to_content f e entry v (omega (arith, room))
          ∙ rw
              (
                size,
                ge→ltb h.buffer_len (size_t (h.actual_len + length e.content))
                    (omega (arith, fits)),
                read_bytes-start (length e.content) e.content (omega arith),
                take_all (length e.content) e.content (omega arith),
                append_to_frame-extended h e.content hv fits,
              )
              refl,
      extended-IsFrame h e.content hv fits,
      extended-used_bytes h e.content hv fits
          ∙ ap (λ t. t ++ e.content) (headers-used_bytes f e v (omega (arith, room)))
          ∙ append_assoc (used_bytes f) (head1 e ++ head2 e) e.content,
    )

-- In a frame that has room for the two headers but not for the content, the headers are put
-- behind its bytes all the same, with the length of a content that is not there, and nothing is
-- reported.
pub append_rjv3_prop_to_frame-cut :
    (f : EthEapFrame) (e : Entry)
    → IsEntry e
    → IsFrame f
    → f.actual_len + 8 ≤ f.buffer_len
    → f.buffer_len < f.actual_len + (8 + length e.content)
    → (g : EthEapFrame) × (append_rjv3_prop_to_frame (prop_for e) f ≡ some g)
      × IsFrame g
      × (used_bytes g ≡ used_bytes f ++ take 8 (entry_bytes e))
unfolding append_content extended
append_rjv3_prop_to_frame-cut f e entry v room full =
    let h = with_headers f e in
    let size : length e.content % 2 ^ 64 ≡ length e.content = omega (arith, entry.1) in
    let small : f.buffer_len < 2 ^ 63 = v.small in
    (
      h,
      to_content f e entry v room
          ∙ rw
              (
                size,
                lt→ltb h.buffer_len (size_t (h.actual_len + length e.content))
                    (omega (arith, full, entry.1, small, room)),
              )
              refl,
      headers-IsFrame f e v room,
      headers-used_bytes f e v room,
    )
