-- ===== src/Codec/Fields.antt =====
-- `tb_codec_decode` against the bytes of a record: what a table's fields hold, the bytes of such a
-- record, and the record that decoding them gives.
use tele_bezel.Base.{
  ℕ, ◌+◌, ◌/◌, ◌%◌, ◌^◌, ◌≤◌, ◌<◌, ◌≡◌, refl, sym, ap, ◌∙◌, true, some, List, [], ◌∷◌, ◌++◌, arith,
  length, drop, take, length-append, drop-append_length, take-append_length, drop-drop,
  append_assoc, append-nil,
}
use tele_bezel.Codec.{
  Span, Cursor, Field, u8, u16, u32, str8, str16, rest, decode, decode_field, decode_number,
  decode_string, decode_span, cursor_init, little, little_from,
}
use tele_bezel.Codec.Bounds.{advance, take_bytes-fits}

-- The span points at these bytes.
abbrev pub Holds : Span → List ℕ → Type 0
Holds s v = (s.length ≡ length v) × (take s.length s.bytes ≡ v)

abbrev pub span : List ℕ → ℕ → Span
span bytes n = record { bytes = bytes; length = n }

drop_on :
    (c : Cursor) (k : ℕ) {xs : List ℕ}
    → drop c.offset c.bytes ≡ xs
    → drop (c.offset + k) c.bytes ≡ drop k xs
drop_on c k e = sym (drop-drop k c.offset (c.offset + k) c.bytes refl) ∙ ap (drop k) e

module _ {R : Type 0} where
  -- A value for each entry of a table; a string's value is an `S`.
  abbrev pub Values : Type 0 → List (Field R) → Type 0
  Values S [] = Unit
  Values S (u8 write ∷ l) = ℕ × Values S l
  Values S (u16 write ∷ l) = ℕ × Values S l
  Values S (u32 write ∷ l) = ℕ × Values S l
  Values S (str8 write ∷ l) = S × Values S l
  Values S (str16 write ∷ l) = S × Values S l
  Values S (rest write ∷ l) = S × Values S l

  -- The struct with each field written once, in the table's order.
  abbrev pub fill : (l : List (Field R)) → Values Span l → R → R
  fill [] vs r = r
  fill (u8 write ∷ l) (v, vs) r = fill l vs (write v r)
  fill (u16 write ∷ l) (v, vs) r = fill l vs (write v r)
  fill (u32 write ∷ l) (v, vs) r = fill l vs (write v r)
  fill (str8 write ∷ l) (v, vs) r = fill l vs (write v r)
  fill (str16 write ∷ l) (v, vs) r = fill l vs (write v r)
  fill (rest write ∷ l) (v, vs) r = fill l vs (write v r)

  -- The bytes of a record.
  abbrev pub encode : (l : List (Field R)) → Values (List ℕ) l → List ℕ
  encode [] vs = []
  encode (u8 write ∷ l) (v, vs) = v ∷ encode l vs
  encode (u16 write ∷ l) (v, vs) = (v % 256) ∷ (v / 256) ∷ encode l vs
  encode (u32 write ∷ l) (v, vs) =
      (v % 256) ∷ (v / 256 % 256) ∷ (v / 65536 % 256) ∷ (v / 16777216) ∷ encode l vs
  encode (str8 write ∷ l) (v, vs) = length v ∷ (v ++ encode l vs)
  encode (str16 write ∷ l) (v, vs) = (length v % 256) ∷ (length v / 256) ∷ (v ++ encode l vs)
  encode (rest write ∷ l) (v, vs) = v ++ encode l vs

  -- The values fit the fields' widths, and the rest of a record is its last field.
  abbrev pub Fits : (l : List (Field R)) → Values (List ℕ) l → Type 0
  Fits [] vs = Unit
  Fits (u8 write ∷ l) (v, vs) = (v < 2 ^ 8) × Fits l vs
  Fits (u16 write ∷ l) (v, vs) = (v < 2 ^ 16) × Fits l vs
  Fits (u32 write ∷ l) (v, vs) = (v < 2 ^ 32) × Fits l vs
  Fits (str8 write ∷ l) (v, vs) = (length v < 2 ^ 8) × Fits l vs
  Fits (str16 write ∷ l) (v, vs) = (length v < 2 ^ 16) × Fits l vs
  Fits (rest write ∷ l) (v, vs) = (l ≡ []) × Fits l vs

  -- The same numbers, and spans that hold the strings.
  abbrev pub Reads : (l : List (Field R)) → Values Span l → Values (List ℕ) l → Type 0
  Reads [] ss vs = Unit
  Reads (u8 write ∷ l) (s, ss) (v, vs) = (s ≡ v) × Reads l ss vs
  Reads (u16 write ∷ l) (s, ss) (v, vs) = (s ≡ v) × Reads l ss vs
  Reads (u32 write ∷ l) (s, ss) (v, vs) = (s ≡ v) × Reads l ss vs
  Reads (str8 write ∷ l) (s, ss) (v, vs) = Holds s v × Reads l ss vs
  Reads (str16 write ∷ l) (s, ss) (v, vs) = Holds s v × Reads l ss vs
  Reads (rest write ∷ l) (s, ss) (v, vs) = Holds s v × Reads l ss vs

  decode_number_lem :
      (c : Cursor) (size v : ℕ) (write : ℕ → R → R) (out : R) (xs : List ℕ)
      → c.length < 2 ^ 16
      → c.offset + size ≤ c.length
      → drop c.offset c.bytes ≡ xs
      → little xs size ≡ v
      → decode_number c size write out ≡ (true, write v out, advance c size)
  unfolding decode_number
  decode_number_lem c size v write out xs w h e ev =
      rw (take_bytes-fits c size w h, decode_number) (rw (e, ev))

  decode_span_lem :
      (c : Cursor) (size : ℕ) (write : Span → R → R) (out : R) (xs : List ℕ)
      → c.length < 2 ^ 16
      → c.offset + size ≤ c.length
      → drop c.offset c.bytes ≡ xs
      → decode_span c size write out
        ≡ (true, write (record { bytes = xs; length = size }) out, advance c size)
  unfolding decode_span
  decode_span_lem c size write out xs w h e = rw (take_bytes-fits c size w h, decode_span) (rw e)

  decode_string_lem :
      (c : Cursor) (prefix n : ℕ) (write : Span → R → R) (out : R) (xs ys : List ℕ)
      → c.length < 2 ^ 16
      → c.offset + (prefix + n) ≤ c.length
      → drop c.offset c.bytes ≡ xs
      → little xs prefix % 2 ^ 16 ≡ n
      → drop prefix xs ≡ ys
      → decode_string c prefix write out
        ≡ (true, write (span ys n) out, advance (advance c prefix) n)
  unfolding decode_string
  decode_string_lem c prefix n write out xs ys w h e en ey =
      rw (take_bytes-fits c prefix w (omega arith), decode_string)
        (rw (e, en)
          (decode_span_lem (advance c prefix) n write out ys w (omega arith) (
            sym (drop-drop prefix c.offset (c.offset + prefix) c.bytes refl)
            ∙ ap (drop prefix) e
            ∙ ey)))

  pub decode-step :
      (c c' : Cursor) (f : Field R) (l : List (Field R)) (out out' : R)
      → decode_field c f out ≡ (true, out', c')
      → decode c (f ∷ l) out ≡ decode c' l out'
  unfolding decode
  decode-step c c' f l out out' e = ground arith

  -- What `tb_codec_decode` does with the bytes of a record.
  abbrev pub Decodes : Cursor → (l : List (Field R)) → Values (List ℕ) l → R → Type 0
  Decodes c l vs out =
      (ss : Values Span l) × (decode c l out
        ≡ (true, fill l ss out, record c { offset = c.length }))
      × Reads l ss vs

  -- The cursor stands at the bytes of a record, which end where the body ends.
  abbrev pub At : Cursor → (l : List (Field R)) → Values (List ℕ) l → List ℕ → Type 0
  At c l vs tail =
      (c.length < 2 ^ 16)
      × (drop c.offset c.bytes ≡ encode l vs ++ tail)
      × (c.offset + length (encode l vs) ≡ c.length)

  -- A field that holds `v` is read, and then the rest of the table is.
  Decodes-number :
      (f : Field R) (l : List (Field R)) (vs : Values (List ℕ) l) (c : Cursor) (k v : ℕ)
      (write : ℕ → R → R) (out : R)
      → decode_field c f out ≡ (true, write v out, advance c k)
      → Decodes (advance c k) l vs (write v out)
      → (ss : Values Span l) × (decode c (f ∷ l) out
          ≡ (true, fill l ss (write v out), record c { offset = c.length }))
        × Reads l ss vs
  Decodes-number f l vs c k v write out e (ss, eq, reads) =
      (ss, decode-step c (advance c k) f l out (write v out) e ∙ eq, reads)

  string_body :
      (l : List (Field R)) (vs : Values (List ℕ) l) (c : Cursor) (prefix : ℕ) (xs v tail : List ℕ)
      → c.length < 2 ^ 16
      → drop c.offset c.bytes ≡ xs
      → drop prefix xs ≡ (v ++ encode l vs) ++ tail
      → c.offset + (prefix + length (v ++ encode l vs)) ≡ c.length
      → At (advance (advance c prefix) (length v)) l vs tail
  string_body l vs c prefix xs v tail w e d n = (
    w,
    drop_on (advance c prefix) (length v)
          (drop_on c prefix e ∙ d ∙ append_assoc v (encode l vs) tail)
        ∙ drop-append_length v (encode l vs ++ tail) (length v) refl,
    omega (arith, length-append v (encode l vs)),
  )

  Decodes-string :
      (f : Field R) (l : List (Field R)) (vs : Values (List ℕ) l) (c : Cursor) (prefix : ℕ)
      (write : Span → R → R) (out : R) (xs v tail : List ℕ)
      → c.length < 2 ^ 16
      → drop c.offset c.bytes ≡ xs
      → drop prefix xs ≡ (v ++ encode l vs) ++ tail
      → c.offset + (prefix + length (v ++ encode l vs)) ≡ c.length
      → little xs prefix % 2 ^ 16 ≡ length v
      → decode_field c f out ≡ decode_string c prefix write out
      → ((out' : R) → Decodes (advance (advance c prefix) (length v)) l vs out')
      → (s : Span) × (ss : Values Span l) × (decode c (f ∷ l) out
          ≡ (true, fill l ss (write s out), record c { offset = c.length }))
        × Holds s v
        × Reads l ss vs
  Decodes-string f l vs c prefix write out xs v tail w e d n len is ih =
      let s : Span = span ((v ++ encode l vs) ++ tail) (length v) in
      let (ss, eq, reads) = ih (write s out) in
      (
        s,
        ss,
        decode-step c (advance (advance c prefix) (length v)) f l out (write s out) (
              is
              ∙ decode_string_lem c prefix (length v) write out xs _ w
                  (omega (arith, length-append v (encode l vs))) e len d)
            ∙ eq,
        (
          refl,
          rw (append_assoc v (encode l vs) tail)
              (take-append_length v (encode l vs ++ tail) (length v) refl),
        ),
        reads,
      )

  decode-end :
      (c : Cursor) (out : R)
      → c.offset ≡ c.length
      → decode c [] out ≡ (true, out, record c { offset = c.length })
  unfolding decode
  decode-end c out h = ground arith

  decode-encode_from :
      (l : List (Field R)) (vs : Values (List ℕ) l) (c : Cursor) (out : R) (tail : List ℕ)
      → Fits l vs
      → At c l vs tail
      → Decodes c l vs out
  unfolding decode decode_field little little_from
  decode-encode_from [] vs c out tail fit (w, e, n) = (tt, ground arith, tt)
  decode-encode_from (u8 write ∷ l) (v, vs) c out tail (fit, fits) (w, e, n) =
      let (ss, eq, reads) =
        Decodes-number (u8 write) l vs c 1 v write out
          (decode_number_lem c 1 v (λ n. write (n % 2 ^ 8)) out _ w (omega arith) e (omega arith)
            ∙ ap (λ n. (true, write n out, advance c 1)) (omega arith))
          (decode-encode_from l vs (advance c 1) (write v out) tail fits
            (w, drop_on c 1 e, omega arith)) in
      ((v, ss), eq, (refl, reads))
  decode-encode_from (u16 write ∷ l) (v, vs) c out tail (fit, fits) (w, e, n) =
      let (ss, eq, reads) =
        Decodes-number (u16 write) l vs c 2 v write out
          (decode_number_lem c 2 v (λ n. write (n % 2 ^ 16)) out _ w (omega arith) e (omega arith)
            ∙ ap (λ n. (true, write n out, advance c 2)) (omega arith))
          (decode-encode_from l vs (advance c 2) (write v out) tail fits
            (w, drop_on c 2 e, omega arith)) in
      ((v, ss), eq, (refl, reads))
  decode-encode_from (u32 write ∷ l) (v, vs) c out tail (fit, fits) (w, e, n) =
      let (ss, eq, reads) =
        Decodes-number (u32 write) l vs c 4 v write out
          (decode_number_lem c 4 v write out _ w (omega arith) e (omega arith))
          (decode-encode_from l vs (advance c 4) (write v out) tail fits
            (w, drop_on c 4 e, omega arith)) in
      ((v, ss), eq, (refl, reads))
  decode-encode_from (str8 write ∷ l) (v, vs) c out tail (fit, fits) (w, e, n) =
      let (s, ss, eq, holds, reads) =
        Decodes-string (str8 write) l vs c 1 write out _ v tail w e refl (omega arith) (omega arith)
          refl
          (λ out'.
            decode-encode_from l vs (advance (advance c 1) (length v)) out' tail fits
              (string_body l vs c 1 _ v tail w e refl (omega arith))) in
      ((s, ss), eq, (holds, reads))
  decode-encode_from (str16 write ∷ l) (v, vs) c out tail (fit, fits) (w, e, n) =
      let (s, ss, eq, holds, reads) =
        Decodes-string (str16 write) l vs c 2 write out _ v tail w e refl (omega arith)
          (omega arith) refl
          (λ out'.
            decode-encode_from l vs (advance (advance c 2) (length v)) out' tail fits
              (string_body l vs c 2 _ v tail w e refl (omega arith))) in
      ((s, ss), eq, (holds, reads))
  decode-encode_from (rest write ∷ []) (v, vs) c out tail (fit, fits) (w, e, n) =
      let s : Span = span ((v ++ []) ++ tail) (length v) in
      (
        (s, tt),
        decode-step c (advance c (length v)) (rest write) [] out (write s out) (
              ap (λ k. decode_span c k write out) (omega (arith, length-append v []))
              ∙ decode_span_lem c (length v) write out _ w (omega (arith, length-append v [])) e)
            ∙ decode-end (advance c (length v)) (write s out) (omega (arith, length-append v [])),
        ((refl, rw (append-nil v) (take-append_length v tail (length v) refl)), tt),
      )
  decode-encode_from (rest write ∷ f ∷ l) (v, vs) c out tail (fit, fits) (w, e, n) = cc

  -- Round trip of the table-driven decoder, for every table: where a body's bytes are those of values
  -- that fit the fields, and the body is shorter than 2^16 bytes, `tb_codec_decode` succeeds, uses the
  -- body up and writes each field once, numbers as they are and strings as spans that point at them.
  pub decode-encode :
      (l : List (Field R)) (vs : Values (List ℕ) l) (out : R) (tail : List ℕ)
      → Fits l vs
      → length (encode l vs) < 2 ^ 16
      → Decodes (cursor_init (some (encode l vs ++ tail)) (length (encode l vs))) l vs out
  unfolding cursor_init
  decode-encode l vs out tail fits w =
      decode-encode_from l vs _ out tail fits (w, refl, omega arith)
