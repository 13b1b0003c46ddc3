-- ===== src/Codec.antt =====
-- app/src/c/codec.c and codec.h: the cursor over a response's bytes, the framing of records
-- (`tb_codec_next`) and the table-driven decoding of a record (`tb_codec_decode`).
-- A pointer is the list of bytes from its place on. The tables of codec.c stand in Codec/Layouts.
pub mod Layouts
pub mod Bounds
pub mod Frames
pub mod Fields
pub mod Complete
use tele_bezel.Base.{
  ℕ, zero, suc, ◌+◌, ◌-◌, ◌*◌, ◌^◌, ◌%◌, Bool, true, false, Option, none, some, List, [], ◌∷◌, ltb,
  ◌==◌, if◌then◌else◌, get_or, drop,
}

-- `TbSpan`
pub record Span : Type 0 where
  pub bytes : List ℕ
  pub length : ℕ

-- `TbCursor`
pub record Cursor : Type 0 where
  pub bytes : List ℕ
  pub length : ℕ
  pub offset : ℕ

-- `tb_cursor_init`; a null pointer is `none`
unfoldable pub cursor_init : Option (List ℕ) → ℕ → Cursor
cursor_init none length = record { bytes = []; length = 0; offset = 0 }
cursor_init (some bytes) length = record { bytes = bytes; length = length; offset = 0 }

-- `take`: `none` is `false`, which leaves the cursor as it was; else the pointer that goes through
-- `out`, and the cursor.
unfoldable pub take_bytes : Cursor → ℕ → Option (List ℕ × Cursor)
take_bytes c size =
    if ltb c.length (c.offset + size)
    then none
    else some (drop c.offset c.bytes, record c { offset = (c.offset + size) % 2 ^ 16 })

-- `little`: the shifted value has no bit of the byte, so `|` adds.
unfoldable pub little_from : List ℕ → ℕ → ℕ → ℕ
little_from bytes zero value = value
little_from bytes (suc size) value =
    little_from bytes size ((value * 256) % 2 ^ 32 + get_or bytes size 0)

unfoldable pub little : List ℕ → ℕ → ℕ
little bytes size = little_from bytes size 0

-- A table entry, `U8(type, field)` and the like: the kind of the field, with the write to the
-- struct that `offsetof` stands for.
pub data Field (R : Type 0) : Type 0 where
  u8 : (ℕ → R → R) → Field R
  u16 : (ℕ → R → R) → Field R
  u32 : (ℕ → R → R) → Field R
  str8 : (Span → R → R) → Field R
  str16 : (Span → R → R) → Field R
  rest : (Span → R → R) → Field R

-- What one round of the loop of `tb_codec_decode` leaves: whether it goes on, the struct, the body.
abbrev pub Round : Type 0 → Type 0
Round R = Bool × R × Cursor

module _ {R : Type 0} where
  -- an integer field of `size` bytes
  unfoldable pub decode_number : Cursor → ℕ → (ℕ → R → R) → R → Round R
  decode_number body size write out = elim (take_bytes body size) [
    | none ↦ (false, out, body)
    | some (bytes, b) ↦ (true, write (little bytes size) out, b)
  ]

  -- the last part of the round: `length` bytes are taken for the span
  unfoldable pub decode_span : Cursor → ℕ → (Span → R → R) → R → Round R
  decode_span body length write out = elim (take_bytes body length) [
    | none ↦ (false, out, body)
    | some (bytes, b) ↦ (true, write (record { bytes = bytes; length = length }) out, b)
  ]

  -- a string with a length prefix of `prefix` bytes
  unfoldable pub decode_string : Cursor → ℕ → (Span → R → R) → R → Round R
  decode_string body prefix write out = elim (take_bytes body prefix) [
    | none ↦ (false, out, body)
    | some (bytes, b) ↦ decode_span b (little bytes prefix % 2 ^ 16) write out
  ]

  unfoldable pub decode_field : Cursor → Field R → R → Round R
  decode_field body (u8 write) out = decode_number body 1 (λ v. write (v % 2 ^ 8)) out
  decode_field body (u16 write) out = decode_number body 2 (λ v. write (v % 2 ^ 16)) out
  decode_field body (u32 write) out = decode_number body 4 write out
  decode_field body (str8 write) out = decode_string body 1 write out
  decode_field body (str16 write) out = decode_string body 2 write out
  decode_field body (rest write) out =
      decode_span body ((body.length + 2 ^ 16 - body.offset) % 2 ^ 16) write out

  -- `tb_codec_decode`: the struct is written as far as the loop gets, and the body must be used up.
  unfoldable pub decode : Cursor → List (Field R) → R → Round R
  decode body [] out = (body.offset == body.length, out, body)
  decode body (f ∷ layout) out =
      let (go, out', body') = decode_field body f out in
      elim go [ false ↦ (false, out', body') | true ↦ decode body' layout out' ]

-- What `tb_codec_next` puts through `type` and `body`.
pub record Frame : Type 0 where
  pub type : ℕ
  pub body : Cursor

-- The second half of `tb_codec_next`: the content, once the header is read and `c` is past it.
unfoldable pub next_content : List ℕ → Cursor → Option Frame × Cursor
next_content header c =
    let length = little (drop 1 header) 2 % 2 ^ 16 in
    elim (take_bytes c length) [
      | none ↦ (none, c)
      | some (content, c') ↦
          (some (record { type = get_or header 0 0; body = cursor_init (some content) length }), c')
    ]

-- `tb_codec_next`
unfoldable pub next : Cursor → Option Frame × Cursor
next cursor = elim (take_bytes cursor 3) [
  | none ↦ (none, cursor)
  | some (header, c) ↦ next_content header c
]
