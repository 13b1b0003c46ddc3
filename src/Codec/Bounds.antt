-- ===== src/Codec/Bounds.antt =====
-- The cursor of codec.c stays inside its bytes, and what it hands out lies inside them too.
use tele_bezel.Base.{
  ℕ, ◌+◌, ◌≤◌, ◌<◌, ◌^◌, ◌%◌, ◌≡◌, refl, subst, ◌⊎◌, none, some, arith, length, drop, length-drop,
  inl, inr, ltb, Bool-cases, get_or,
}
use tele_bezel.Codec.{Cursor, Frame, take_bytes, little, next, next_content, cursor_init}

-- The offset is within the length, and the length is a `uint16_t` that the bytes reach.
pub record IsWithin (c : Cursor) : Type 0 where
  pub offset_in : c.offset ≤ c.length
  pub length_in : c.length ≤ length c.bytes
  pub word : c.length < 2 ^ 16

-- The cursor `size` bytes on.
abbrev pub advance : Cursor → ℕ → Cursor
advance c size = record c { offset = c.offset + size }

-- Where the bytes are there, `take` does not wrap.
pub take_bytes-fits :
    (c : Cursor) (size : ℕ)
    → c.length < 2 ^ 16
    → c.offset + size ≤ c.length
    → take_bytes c size ≡ some (drop c.offset c.bytes, advance c size)
unfolding take_bytes
take_bytes-fits c size w h = ground arith

pub take_bytes-short :
    (c : Cursor) (size : ℕ) → c.length < c.offset + size → take_bytes c size ≡ none
unfolding take_bytes
take_bytes-short c size h = ground arith

pub take_bytes-cases :
    (c : Cursor) (size : ℕ)
    → IsWithin c
    → ((c.length < c.offset + size) × (take_bytes c size ≡ none))
      ⊎ ((c.offset + size ≤ c.length)
          × (take_bytes c size ≡ some (drop c.offset c.bytes, advance c size)))
take_bytes-cases c size v = elim (Bool-cases (ltb c.length (c.offset + size))) [
  | inl e ↦ inl (ground arith, take_bytes-short c size (ground arith))
  | inr e ↦ inr (ground arith, take_bytes-fits c size v.word (ground arith))
]

-- The content's length as the header at the cursor gives it.
abbrev pub content_length : Cursor → ℕ
content_length c = little (drop 1 (drop c.offset c.bytes)) 2 % 2 ^ 16

-- The frame whose header stands at the cursor.
abbrev pub frame_at : Cursor → Frame
frame_at c = record {
  type = get_or (drop c.offset c.bytes) 0 0;
  body = record { bytes = drop (c.offset + 3) c.bytes; length = content_length c; offset = 0 };
}

-- The three ways that a call of `tb_codec_next` ends.
pub next-cases :
    (c : Cursor)
    → IsWithin c
    → ((c.length < c.offset + 3) × (next c ≡ (none, c)))
      ⊎ ((c.offset + 3 ≤ c.length)
          × (c.length < c.offset + 3 + content_length c)
          × (next c ≡ (none, advance c 3)))
      ⊎ ((c.offset + 3 + content_length c ≤ c.length)
          × (next c ≡ (some (frame_at c), advance (advance c 3) (content_length c))))
unfolding next next_content cursor_init
next-cases c v = elim (take_bytes-cases c 3 v) [
  | inl (short, e) ↦ inl (short, rw (e, next))
  | inr (fits, e) ↦ elim (take_bytes-cases (advance c 3) (content_length c) (omega arith)) [
    | inl (short, e') ↦ inr (inl (fits, short, rw (e, next) (rw (e', next_content))))
    | inr (fits', e') ↦ inr (inr (fits', rw (e, next) (rw (e', next_content))))
  ]
]

-- What `tb_codec_next` does when it gives a frame.
pub record Framed (c : Cursor) (f : Frame) (c' : Cursor) : Type 0 where
  pub moved : c'.offset ≡ c.offset + (3 + f.body.length)
  pub same_bytes : c'.bytes ≡ c.bytes
  pub same_length : c'.length ≡ c.length
  pub body_bytes : f.body.bytes ≡ drop (c.offset + 3) c.bytes
  pub body_start : f.body.offset ≡ 0
  pub body_within : IsWithin f.body

pub next-IsWithin : (c : Cursor) → IsWithin c → IsWithin (next c).1
next-IsWithin c v = elim (next-cases c v) [
  | inl (short, e) ↦ rw e v
  | inr (inl (h, short, e)) ↦ rw e (omega arith)
  | inr (inr (h, e)) ↦ rw e (omega arith)
]

frame_at-Framed :
    (c : Cursor)
    → IsWithin c
    → c.offset + 3 + content_length c ≤ c.length
    → Framed c (frame_at c) (advance (advance c 3) (content_length c))
frame_at-Framed c v fits = record {
  moved = omega arith;
  same_bytes = refl;
  same_length = refl;
  body_bytes = refl;
  body_start = refl;
  body_within = omega (arith, length-drop (c.offset + 3) c.bytes);
}

-- Where `tb_codec_next` gives a frame at a cursor inside its bytes, the cursor moves over the three
-- header bytes and the content and keeps its bytes, and the body is a cursor of its own that starts at
-- the content's first byte and stays inside the bytes.
pub next-Framed :
    (c : Cursor) (f : Frame) → IsWithin c → (next c).0 ≡ some f → Framed c f (next c).1
next-Framed c f v h = elim (next-cases c v) [
  | inl (short, e) ↦ cc
  | inr (inl (_, short, e)) ↦ cc
  | inr (inr (fits, e)) ↦
      let same : frame_at c ≡ f = cc in
      subst (λ g. Framed c g (next c).1) same (rw e (frame_at-Framed c v fits))
]
