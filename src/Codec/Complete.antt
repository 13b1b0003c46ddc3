-- ===== src/Codec/Complete.antt =====
-- A decoder that succeeds has written the whole struct: what the struct held before does not matter,
-- which is why the callers of codec.c leave it uninitialised.
use tele_bezel.Base.{
  ℕ, ◌≡◌, refl, sym, ap, ◌∙◌, inl, inr, true, List, [], ◌∷◌, arith, Option-cases, ◌%◌, ◌^◌,
}
use tele_bezel.Codec.{
  Span, Cursor, Field, u8, u16, u32, str8, str16, rest, Round, decode, decode_field, decode_number,
  decode_string, decode_span, take_bytes, little,
}
use tele_bezel.Codec.Fields.{Values, fill, decode-step}
use tele_bezel.Codec.Layouts.{
  layout_account, layout_prefs, layout_summary, layout_status, layout_chat, layout_message,
  layout_text, layout_templates, layout_template, layout_draft, layout_send_state,
  layout_media_info, layout_media_data,
}

module _ {R : Type 0} where
  -- The table writes every field of the struct.
  abbrev pub IsComplete : List (Field R) → Type 0
  IsComplete l = (ss : Values Span l) (out out' : R) → fill l ss out ≡ fill l ss out'

  -- A round that succeeds at `out` reads a value that does not depend on `out`.
  abbrev Writes : (V : Type 0) → (V → R → R) → (R → Round R) → Type 0
  Writes V write round = (v : V) × (c' : Cursor) × ((o : R) → round o ≡ (true, write v o, c'))

  decode_number-Writes :
      (c : Cursor) (size : ℕ) (write : ℕ → R → R) (out : R)
      → (decode_number c size write out).0 ≡ true
      → Writes ℕ write (decode_number c size write)
  unfolding decode_number
  decode_number-Writes c size write out h = elim (Option-cases (take_bytes c size)) [
    | inl e ↦ absurd (ground arith)
    | inr ((bytes, c'), e) ↦ (little bytes size, c', λ o. rw (e, decode_number))
  ]

  decode_span-Writes :
      (c : Cursor) (size : ℕ) (write : Span → R → R) (out : R)
      → (decode_span c size write out).0 ≡ true
      → Writes Span write (decode_span c size write)
  unfolding decode_span
  decode_span-Writes c size write out h = elim (Option-cases (take_bytes c size)) [
    | inl e ↦ absurd (ground arith)
    | inr ((bytes, c'), e) ↦ (record { bytes = bytes; length = size }, c', λ o. rw (e, decode_span))
  ]

  decode_string-Writes :
      (c : Cursor) (prefix : ℕ) (write : Span → R → R) (out : R)
      → (decode_string c prefix write out).0 ≡ true
      → Writes Span write (decode_string c prefix write)
  unfolding decode_string
  decode_string-Writes c prefix write out h = elim (Option-cases (take_bytes c prefix)) [
    | inl e ↦ absurd (ground arith)
    | inr ((bytes, b), e) ↦
        let h' : (decode_span b (little bytes prefix % 2 ^ 16) write out).0 ≡ true = ground arith in
        let (v, c', eq) = decode_span-Writes b (little bytes prefix % 2 ^ 16) write out h' in
        (v, c', λ o. rw (e, decode_string) (eq o))
  ]

  -- What a decoder that succeeds has done.
  abbrev Filled : Cursor → List (Field R) → R → R → Type 0
  Filled c l out out' =
      (ss : Values Span l) × ((decode c l out).1 ≡ fill l ss out)
      × (decode c l out' ≡ (true, fill l ss out', (decode c l out).2))

  decode_first :
      (c : Cursor) (f : Field R) (l : List (Field R)) (out : R)
      → (decode c (f ∷ l) out).0 ≡ true
      → (decode_field c f out).0 ≡ true
  unfolding decode
  decode_first c f l out h = ground arith

  decodes-Filled :
      (V : Type 0) (write : V → R → R) (c : Cursor) (f : Field R) (l : List (Field R))
      (out out' : R)
      → (decode c (f ∷ l) out).0 ≡ true
      → Writes V write (decode_field c f)
      → ((b : Cursor) (o o' : R) → (decode b l o).0 ≡ true → Filled b l o o')
      → (v : V) × (ss : Values Span l) × ((decode c (f ∷ l) out).1 ≡ fill l ss (write v out))
        × (decode c (f ∷ l) out' ≡ (true, fill l ss (write v out'), (decode c (f ∷ l) out).2))
  decodes-Filled V write c f l out out' h (v, b, eq) ih =
      let e = decode-step c b f l out (write v out) (eq out) in
      let e' = decode-step c b f l out' (write v out') (eq out') in
      let (ss, p, q) = ih b (write v out) (write v out') (rw e at h) in (v, ss, rw e p, e' ∙ rw e q)

  decode-Filled :
      (l : List (Field R)) (c : Cursor) (out out' : R)
      → (decode c l out).0 ≡ true
      → Filled c l out out'
  unfolding decode decode_field
  decode-Filled [] c out out' h = (tt, refl, ground arith)
  decode-Filled (u8 write ∷ l) c out out' h =
      let (v, ss, p, q) =
        decodes-Filled ℕ (λ v. write (v % 2 ^ 8)) c (u8 write) l out out' h
          (decode_number-Writes c 1 _ out (decode_first c (u8 write) l out h)) (decode-Filled l) in
      ((v % 2 ^ 8, ss), p, q)
  decode-Filled (u16 write ∷ l) c out out' h =
      let (v, ss, p, q) =
        decodes-Filled ℕ (λ v. write (v % 2 ^ 16)) c (u16 write) l out out' h
          (decode_number-Writes c 2 _ out (decode_first c (u16 write) l out h)) (decode-Filled l) in
      ((v % 2 ^ 16, ss), p, q)
  decode-Filled (u32 write ∷ l) c out out' h =
      let (v, ss, p, q) =
        decodes-Filled ℕ write c (u32 write) l out out' h
          (decode_number-Writes c 4 write out (decode_first c (u32 write) l out h))
          (decode-Filled l) in
      ((v, ss), p, q)
  decode-Filled (str8 write ∷ l) c out out' h =
      let (v, ss, p, q) =
        decodes-Filled Span write c (str8 write) l out out' h
          (decode_string-Writes c 1 write out (decode_first c (str8 write) l out h))
          (decode-Filled l) in
      ((v, ss), p, q)
  decode-Filled (str16 write ∷ l) c out out' h =
      let (v, ss, p, q) =
        decodes-Filled Span write c (str16 write) l out out' h
          (decode_string-Writes c 2 write out (decode_first c (str16 write) l out h))
          (decode-Filled l) in
      ((v, ss), p, q)
  decode-Filled (rest write ∷ l) c out out' h =
      let (v, ss, p, q) =
        decodes-Filled Span write c (rest write) l out out' h
          (decode_span-Writes c _ write out (decode_first c (rest write) l out h))
          (decode-Filled l) in
      ((v, ss), p, q)

  -- Over a table that writes every field, what a decoder that succeeds leaves is the same whatever
  -- the struct held before.
  pub decode_overwrites :
      (l : List (Field R)) (c : Cursor) (out out' : R)
      → IsComplete l
      → (decode c l out).0 ≡ true
      → decode c l out' ≡ decode c l out
  decode_overwrites l c out out' complete h =
      let (ss, p, q) = decode-Filled l c out out' h in
      q
      ∙ ap (λ o. (true, o, (decode c l out).2)) (complete ss out' out ∙ sym p)
      ∙ ap (λ b. (b, (decode c l out).1, (decode c l out).2)) (sym h)

-- Each of the thirteen tables of codec.c writes every field of its struct.
pub layouts-IsComplete :
    IsComplete layout_account
    × IsComplete layout_prefs
    × IsComplete layout_summary
    × IsComplete layout_status
    × IsComplete layout_chat
    × IsComplete layout_message
    × IsComplete layout_text
    × IsComplete layout_templates
    × IsComplete layout_template
    × IsComplete layout_draft
    × IsComplete layout_send_state
    × IsComplete layout_media_info
    × IsComplete layout_media_data
unfolding layout_account layout_prefs layout_summary layout_status layout_chat layout_message
    layout_text layout_templates layout_template layout_draft layout_send_state layout_media_info
    layout_media_data
layouts-IsComplete = (
  λ ss o o'. refl,
  λ ss o o'. refl,
  λ ss o o'. refl,
  λ ss o o'. refl,
  λ ss o o'. refl,
  λ ss o o'. refl,
  λ ss o o'. refl,
  λ ss o o'. refl,
  λ ss o o'. refl,
  λ ss o o'. refl,
  λ ss o o'. refl,
  λ ss o o'. refl,
  λ ss o o'. refl,
)
