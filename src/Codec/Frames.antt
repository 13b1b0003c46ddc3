-- ===== src/Codec/Frames.antt =====
-- The loop `while (cursor.offset < cursor.length)` over the records of a response, which every
-- view's `parse` in app/src/c runs over `tb_codec_next`, and the bytes of a list of records.
use tele_bezel.Base.{
  ℕ, zero, suc, ◌+◌, ◌-◌, ◌/◌, ◌%◌, ◌^◌, ◌≤◌, ◌<◌, ◌≡◌, refl, sym, ap, ◌∙◌, inl, inr, Bool, true,
  false, none, some, List, [], ◌∷◌, ◌++◌, arith, length, drop, take, ltb, Bool-cases, Option-cases,
  length-append, drop-append_length, take-append_length, drop-drop,
}
use tele_bezel.Codec.{Cursor, cursor_init, Frame, next, little, little_from}
use tele_bezel.Codec.Bounds.{
  IsWithin, Framed, advance, content_length, frame_at, next-cases, next-IsWithin, next-Framed,
}

-- How the loop ends: at the end of the bytes, at a record that `tb_codec_next` refuses, or where the
-- loop's body returns. The last case does not occur: see `for_records-ends`.
pub data Walk (S : Type 0) : Type 0 where
  finished : S → Walk S
  bad_frame : S → Walk S
  stopped : S → Walk S
  out_of_fuel : S → Walk S

abbrev pub is_over : {S : Type 0} → Walk S → Bool
is_over (out_of_fuel s) = false
is_over _ = true

module _ {S : Type 0} (body : Frame → S → Bool × S) where
  -- The body says whether the loop goes on, with the new state.
  unfoldable pub for_records : ℕ → Cursor → S → Walk S
  for_records zero c s = out_of_fuel s
  for_records (suc fuel) c s = elim (ltb c.offset c.length) [
    | false ↦ finished s
    | true ↦
        let (found, c') = next c in
        elim found [
          | none ↦ bad_frame s
          | some f ↦
              let (go, s') = body f s in
              elim go [ false ↦ stopped s' | true ↦ for_records fuel c' s' ]
        ]
  ]

  -- The loop ends, whatever its body does, from a cursor inside its bytes: fuel beyond the bytes that
  -- are left is enough, since a record takes three bytes at least.
  pub for_records-ends :
      (fuel : ℕ) (c : Cursor) (s : S)
      → IsWithin c
      → c.length - c.offset < fuel
      → is_over (for_records fuel c s) ≡ true
  unfolding for_records
  for_records-ends zero c s v h = absurd (omega arith)
  for_records-ends (suc fuel) c s v h = elim (Option-cases (next c).0) [
    | inl e ↦ ground arith
    | inr (f, e) ↦
        let w : IsWithin (next c).1 = next-IsWithin c v in
        let p : Framed c f (next c).1 = next-Framed c f v e in
        ground (arith, for_records-ends fuel (next c).1 (body f s).1 w (omega arith))
  ]

-- A record on the wire, as the phone writes it: the type, the length in two bytes, the content.
pub record Wire : Type 0 where
  pub type : ℕ
  pub content : List ℕ

abbrev pub frame_bytes : Wire → List ℕ
frame_bytes r = r.type ∷ (length r.content % 256) ∷ (length r.content / 256) ∷ r.content

abbrev pub payload : List Wire → List ℕ
payload [] = []
payload (r ∷ rs) = frame_bytes r ++ payload rs

-- What a frame holds.
abbrev pub contents : Frame → Wire
contents f = record { type = f.type; content = take f.body.length f.body.bytes }

-- The body that keeps each record, the newest first.
abbrev pub keep : Frame → List Wire → Bool × List Wire
keep f rs = (true, contents f ∷ rs)

abbrev pub onto : List Wire → List Wire → List Wire
onto [] acc = acc
onto (r ∷ rs) acc = onto rs (r ∷ acc)

module _ (c : Cursor) (r : Wire) (tail : List ℕ) (v : IsWithin c)
    (e : drop c.offset c.bytes ≡ frame_bytes r ++ tail)
    (fits : c.offset + (3 + length r.content) ≤ c.length) where
  content_length-frame_bytes : content_length c ≡ length r.content
  unfolding little little_from
  content_length-frame_bytes = rw e (omega arith)

  drop-frame_bytes : drop (c.offset + 3) c.bytes ≡ r.content ++ tail
  drop-frame_bytes = sym (drop-drop 3 c.offset (c.offset + 3) c.bytes refl) ∙ ap (drop 3) e

  contents-frame_at : contents (frame_at c) ≡ r
  contents-frame_at =
      rw (content_length-frame_bytes, drop-frame_bytes, e)
        (ap (λ xs. let w : Wire = record { type = r.type; content = xs } in w)
          (take-append_length r.content tail (length r.content) refl))

  -- At the bytes of a record the cursor reads that record.
  next-frame_bytes : next c ≡ (some (frame_at c), advance c (3 + length r.content))
  next-frame_bytes = elim (next-cases c v) [
    | inl (short, _) ↦ absurd (omega arith)
    | inr (inl (_, short, _)) ↦ absurd (omega (arith, content_length-frame_bytes))
    | inr (inr (_, p)) ↦
        p
        ∙ ap (λ n. (some (frame_at c), record c { offset = n }))
            (omega (arith, content_length-frame_bytes))
  ]

  drop-advance : drop (c.offset + (3 + length r.content)) c.bytes ≡ tail
  drop-advance =
      sym
        (drop-drop (3 + length r.content) c.offset (c.offset + (3 + length r.content)) c.bytes refl)
      ∙ ap (drop (3 + length r.content)) e
      ∙ drop-append_length (frame_bytes r) tail (3 + length r.content) (omega arith)

module _ {S : Type 0} (body : Frame → S → Bool × S) where
  for_records-end :
      (fuel : ℕ) (c : Cursor) (s : S)
      → c.offset ≡ c.length
      → for_records body (suc fuel) c s ≡ finished s
  unfolding for_records
  for_records-end fuel c s h = ground arith

  -- One round of the loop, at a record that the body takes.
  for_records-step :
      (fuel : ℕ) (c c' : Cursor) (s s' : S) (f : Frame)
      → c.offset < c.length
      → next c ≡ (some f, c')
      → body f s ≡ (true, s')
      → for_records body (suc fuel) c s ≡ for_records body fuel c' s'
  unfolding for_records
  for_records-step fuel c c' s s' f h e g = ground arith

-- The round trip from any cursor that stands at the bytes of the records that are left.
for_records-payload_from :
    (rs acc : List Wire) (fuel : ℕ) (c : Cursor)
    → IsWithin c
    → drop c.offset c.bytes ≡ payload rs
    → c.offset + length (payload rs) ≡ c.length
    → length rs < fuel
    → for_records keep fuel c acc ≡ finished (onto rs acc)
for_records-payload_from [] acc zero c v e n h = absurd (omega arith)
for_records-payload_from [] acc (suc fuel) c v e n h = for_records-end keep fuel c acc (omega arith)
for_records-payload_from (r ∷ rs) acc zero c v e n h = absurd (omega arith)
for_records-payload_from (r ∷ rs) acc (suc fuel) c v e n h =
    for_records-step keep fuel c (advance c (3 + length r.content)) acc
      (contents (frame_at c) ∷ acc) (frame_at c) (omega (arith, size))
      (next-frame_bytes c r (payload rs) v e (omega (arith, size))) refl
    ∙ rw (contents-frame_at c r (payload rs) v e (omega (arith, size))) (
        for_records-payload_from rs (r ∷ acc) fuel (advance c (3 + length r.content))
          (omega (arith, size)) (drop-advance c r (payload rs) v e (omega (arith, size)))
          (omega (arith, size)) (omega arith))
  where
    size : length (payload (r ∷ rs)) ≡ 3 + length r.content + length (payload rs)
    size = omega (arith, length-append r.content (payload rs))

-- The fuel of the loop for a response of `n` bytes.
abbrev pub loop_fuel : ℕ → ℕ
loop_fuel n = suc n

length-payload : (rs : List Wire) → length rs ≤ length (payload rs)
length-payload [] = omega arith
length-payload (r ∷ rs) = omega (arith, length-payload rs, length-append r.content (payload rs))

-- Framing round trip: over a response whose bytes are those of a list of records, and which is
-- shorter than 2^16 bytes, a loop that puts each record before those it has gives back each record's
-- type and content, the last one first, and ends at the end of the bytes.
pub for_records-payload :
    (rs : List Wire)
    → length (payload rs) < 2 ^ 16
    → for_records keep
        (loop_fuel (length (payload rs)))
        (cursor_init (some (payload rs)) (length (payload rs)))
        []
      ≡ finished (onto rs [])
unfolding cursor_init
for_records-payload rs h =
    for_records-payload_from rs [] (loop_fuel (length (payload rs)))
      (record { bytes = payload rs; length = length (payload rs); offset = 0 }) (omega arith) refl
      (omega arith) (omega (arith, length-payload rs))

-- What a walk leaves, however it ends.
abbrev pub left : {S : Type 0} → Walk S → S
left (finished s) = s
left (bad_frame s) = s
left (stopped s) = s
left (out_of_fuel s) = s

-- A loop keeps what each round of its body keeps.
pub for_records-keeps :
    {S : Type 0} (P : S → Type 0) (body : Frame → S → Bool × S)
    → ((f : Frame) (s : S) → P s → P (body f s).1)
    → (fuel : ℕ) (c : Cursor) (s : S) → P s
    → P (left (for_records body fuel c s))
unfolding for_records
for_records-keeps P body step zero c s h = h
for_records-keeps P body step (suc fuel) c s h = elim (Bool-cases (ltb c.offset c.length)) [
  | inl e ↦ elim (Option-cases (next c).0) [
    | inl n ↦ rw (e, for_records) (rw (n, for_records) h)
    | inr (f, n) ↦ elim (Bool-cases (body f s).0) [
      | inl g ↦
          rw (e, for_records)
            (rw (n, for_records)
              (rw (g, for_records)
                (for_records-keeps P body step fuel (next c).1 (body f s).1 (step f s h))))
      | inr g ↦ rw (e, for_records) (rw (n, for_records) (rw (g, for_records) (step f s h)))
    ]
  ]
  | inr e ↦ rw (e, for_records) h
]
