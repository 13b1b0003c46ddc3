-- ===== src/Image/Tokens.antt =====
-- What the compressed pixel bytes mean: runs of literal bytes, repeated bytes, and copies of bytes that
-- stand a distance back in the output. The decoder writes exactly what the tokens say.
use tele_bezel.Base.{
  ℕ, zero, suc, ◌+◌, ◌-◌, ◌*◌, ◌/◌, ◌%◌, ◌^◌, ◌≤◌, ◌<◌, ◌≡◌, refl, sym, ap, ◌∙◌, Bool, true, false,
  ◌&&◌, ◌||◌, some, List, [], ◌∷◌, ◌++◌, arith, ltb, leb, ◌==◌, if◌then◌else◌, get_or, set, length,
  replicate, length-append, length-replicate,
}
use tele_bezel.Image.Output.{
  write_all, copied, copied_cells, Holds, length-write_all, Holds-write_all, length-copied_cells,
  length-copied, Holds-copied,
}
use tele_bezel.Image.Decoder.{
  Decoder, Op, no_op, literal, repeat, distance_low, distance_high, is_no_op, emit, emit_repeat,
  emit_copy, close_op, step_start, step_literal, step_distance, step_op, step, run,
}

-- The decoder at a place in its pixels.
abbrev pub at : Decoder → List ℕ → ℕ → Op → ℕ → ℕ → Decoder
at d cells filled op remaining distance = record d {
  pixels = some cells;
  filled = filled;
  op = op;
  remaining = remaining;
  distance = distance;
}

run-step :
    (d d' : Decoder) (byte : ℕ) (bytes : List ℕ)
    → (leb d.size d.filled && is_no_op d.op) ≡ false
    → step d byte ≡ (true, d')
    → run d (byte ∷ bytes) ≡ run d' bytes
unfolding run
run-step d d' byte bytes h e =
    rw (h, run)
      (rw (ap (λ (r : Bool × Decoder). r.0) e, run) (ap (λ (r : Bool × Decoder). run r.1 bytes) e))

-- The rest of a round, over what `emit` gave.
abbrev after : (Decoder → Bool × Decoder) → Bool × Decoder → Bool × Decoder
after f (go, d) = elim go [ false ↦ (false, d) | true ↦ f d ]

abbrev after_literal : Bool × Decoder → Bool × Decoder
after_literal (go, d) =
    let left = (d.remaining + 2 ^ 8 - 1) % 2 ^ 8 in
    elim go [
      | false ↦ (false, d)
      | true ↦ (true, record d { remaining = left; op = if left == 0 then no_op else d.op })
    ]

module _ (d : Decoder) where
  emit-at :
      (cells : List ℕ) (k : ℕ) (op : Op) (r distance value : ℕ)
      → k < d.size
      → emit (at d cells k op r distance) value
        ≡ (true, at d (set cells k value) (k + 1) op r distance)
  unfolding emit
  emit-at cells k op r distance value h = ground arith

  emit_repeat-at :
      (n byte : ℕ) (cells : List ℕ) (k m : ℕ) (op : Op) (distance : ℕ)
      → k + n ≡ m
      → m ≤ d.size
      → emit_repeat n byte (at d cells k op n distance)
        ≡ (true, at d (write_all cells k (replicate n byte)) m op 0 distance)
  unfolding emit_repeat write_all
  emit_repeat-at zero byte cells k m op distance e h =
      ap (λ j. (true, at d cells j op 0 distance)) (omega arith)
  emit_repeat-at (suc n) byte cells k m op distance e h =
      ap (after (λ d'. emit_repeat n byte (record d' { remaining = n })))
        (emit-at cells k op (suc n) distance byte (omega arith))
      ∙ (emit_repeat-at n byte (set cells k byte) (k + 1) m op distance (omega arith) h)

  emit_copy-at :
      (n : ℕ) (cells : List ℕ) (k m : ℕ) (op : Op) (distance : ℕ)
      → k + n ≡ m
      → m ≤ d.size
      → emit_copy n (at d cells k op n distance)
        ≡ (true, at d (copied_cells n distance cells k) m op 0 distance)
  unfolding emit_copy copied_cells
  emit_copy-at zero cells k m op distance e h =
      ap (λ j. (true, at d cells j op 0 distance)) (omega arith)
  emit_copy-at (suc n) cells k m op distance e h =
      ap (after (λ d'. emit_copy n (record d' { remaining = n })))
        (emit-at cells k op (suc n) distance (get_or cells (k - distance) 0) (omega arith))
      ∙ (emit_copy-at n (set cells k (get_or cells (k - distance) 0)) (k + 1) m op distance
          (omega arith) h)

  step_literal_more :
      (cells : List ℕ) (k n distance v : ℕ)
      → k < d.size
      → suc n < 256
      → step (at d cells k literal (suc (suc n)) distance) v
        ≡ (true, at d (set cells k v) (k + 1) literal (suc n) distance)
  unfolding step step_op step_literal
  step_literal_more cells k n distance v h w =
      ap after_literal (emit-at cells k literal (suc (suc n)) distance v h) ∙ ground arith

  step_literal_last :
      (cells : List ℕ) (k distance v : ℕ)
      → k < d.size
      → step (at d cells k literal 1 distance) v
        ≡ (true, at d (set cells k v) (k + 1) no_op 0 distance)
  unfolding step step_op step_literal
  step_literal_last cells k distance v h = ap after_literal (emit-at cells k literal 1 distance v h)

  -- The bytes of a literal run.
  run-literals :
      (vs rest : List ℕ) (cells : List ℕ) (k m distance : ℕ)
      → 0 < length vs
      → length vs < 256
      → k + length vs ≡ m
      → m ≤ d.size
      → run (at d cells k literal (length vs) distance) (vs ++ rest)
        ≡ run (at d (write_all cells k vs) m no_op 0 distance) rest
  unfolding write_all
  run-literals [] rest cells k m distance p w e h = absurd (omega arith)
  run-literals (v ∷ []) rest cells k m distance p w e h =
      run-step _ _ v rest (ground arith) (step_literal_last cells k distance v (omega arith))
      ∙ ap (λ j. run (at d (set cells k v) j no_op 0 distance) rest) (omega arith)
  run-literals (v ∷ u ∷ vs) rest cells k m distance p w e h =
      run-step _ _ v (u ∷ vs ++ rest) (ground arith)
        (step_literal_more cells k (length vs) distance v (omega arith) (omega arith))
      ∙ run-literals (u ∷ vs) rest (set cells k v) (k + 1) m distance (omega arith) (omega arith)
          (omega arith) h

step_distance_lem :
    (d : Decoder) (byte x : ℕ)
    → d.distance + byte * 256 ≡ x
    → 0 < x
    → x ≤ d.filled
    → step_distance d byte ≡ close_op (emit_copy d.remaining (record d { distance = x }))
unfolding step_distance
step_distance_lem d byte x e pos le =
    rw e (let g : (x == 0 || ltb d.filled x) ≡ false = ground arith in rw g refl)

-- The three kinds of tokens.
pub data Token : Type 0 where
  literals : List ℕ → Token
  repeats : ℕ → ℕ → Token
  copies : ℕ → ℕ → Token

abbrev pub token_bytes : Token → List ℕ
token_bytes (literals vs) = (length vs - 1) ∷ vs
token_bytes (repeats n byte) = (0x80 + (n - 3)) ∷ byte ∷ []
token_bytes (copies n distance) = (0xC0 + (n - 3)) ∷ (distance % 256) ∷ (distance / 256) ∷ []

-- The output with a token's bytes after it.
abbrev pub expand : List ℕ → Token → List ℕ
expand out (literals vs) = out ++ vs
expand out (repeats n byte) = out ++ replicate n byte
expand out (copies n distance) = copied n distance out

-- The token can be written, and a copy stays within the output.
abbrev pub Fits : List ℕ → Token → Type 0
Fits out (literals vs) = (0 < length vs) × (length vs ≤ 128)
Fits out (repeats n byte) = (3 ≤ n) × (n ≤ 66)
Fits out (copies n distance) =
    (3 ≤ n) × (n ≤ 66) × (0 < distance) × (distance ≤ length out) × (distance < 2 ^ 16)

-- Where the decoder stands between two tokens.
abbrev pub Between : Decoder → Decoder → List ℕ → Type 0
Between d d' out =
    (cells : List ℕ) × (r : ℕ) × (distance : ℕ) × (d' ≡ at d cells (length out) no_op r distance)
    × Holds cells out
    × (d.size ≤ length cells)

-- The bytes of a token take the decoder from an output to the output with the token's bytes.
run-token :
    (d : Decoder) (t : Token) (cells out rest : List ℕ) (r distance : ℕ)
    → Holds cells out
    → d.size ≤ length cells
    → Fits out t
    → length (expand out t) ≤ d.size
    → (d' : Decoder) × (run (at d cells (length out) no_op r distance) (token_bytes t ++ rest)
        ≡ run d' rest)
      × Between d d' (expand out t)
unfolding step step_op step_start
run-token d (literals vs) cells out rest r distance h s (p, w) fits =
    let n : length (out ++ vs) ≡ length out + length vs = length-append out vs in
    (
      at d (write_all cells (length out) vs) (length (out ++ vs)) no_op 0 distance,
      run-step _ (at d cells (length out) literal (length vs) distance) (length vs - 1) (vs ++ rest)
            (ground (arith, n)) (ground (arith, n))
          ∙ run-literals d vs rest cells (length out) (length (out ++ vs)) distance p (omega arith)
              (sym n) fits,
      (
        write_all cells (length out) vs,
        0,
        distance,
        refl,
        Holds-write_all cells out (length out) vs refl h (omega (arith, n)),
        omega (arith, length-write_all cells (length out) vs),
      ),
    )
run-token d (repeats n byte) cells out rest r distance h s (p, w) fits =
    let bytes : List ℕ = replicate n byte in
    let e : length (out ++ bytes) ≡ length out + n =
      omega (arith, length-append out bytes, length-replicate n byte) in
    (
      at d (write_all cells (length out) bytes) (length (out ++ bytes)) no_op 0 distance,
      run-step _ (at d cells (length out) repeat n distance) (0x80 + (n - 3)) (byte ∷ rest)
            (ground (arith, e)) (ground (arith, e))
          ∙ run-step _ _ byte rest (ground arith) (
              ap close_op (
                emit_repeat-at d n byte cells (length out) (length (out ++ bytes)) repeat distance
                  (sym e) fits)),
      (
        write_all cells (length out) bytes,
        0,
        distance,
        refl,
        Holds-write_all cells out (length out) bytes refl h
            (omega (arith, e, length-replicate n byte)),
        omega (arith, length-write_all cells (length out) bytes),
      ),
    )
run-token d (copies n back) cells out rest r distance h s (p, w, pos, le, small) fits =
    let e : length (copied n back out) ≡ length out + n = length-copied n back out in
    (
      at d (copied_cells n back cells (length out)) (length (copied n back out)) no_op 0 back,
      run-step _ (at d cells (length out) distance_low n distance) (0xC0 + (n - 3)) _
            (ground (arith, e)) (ground (arith, e))
          ∙ run-step _ (at d cells (length out) distance_high n (back % 256)) (back % 256) _
              (ground arith) refl
          ∙ run-step _ _ (back / 256) rest (ground arith) (
              step_distance_lem (at d cells (length out) distance_high n (back % 256)) (back / 256)
                back (omega arith) pos le
              ∙ ap close_op (
                  emit_copy-at d n cells (length out) (length (copied n back out)) distance_high
                    back (sym e) fits)),
      (
        copied_cells n back cells (length out),
        0,
        back,
        refl,
        Holds-copied n back cells out (length out) refl pos le h (omega (arith, e)),
        omega (arith, length-copied_cells n back cells (length out)),
      ),
    )

abbrev pub tokens_bytes : List Token → List ℕ
tokens_bytes [] = []
tokens_bytes (t ∷ ts) = token_bytes t ++ tokens_bytes ts

abbrev pub expand_all : List ℕ → List Token → List ℕ
expand_all out [] = out
expand_all out (t ∷ ts) = expand_all (expand out t) ts

abbrev pub AllFit : List ℕ → List Token → Type 0
AllFit out [] = Unit
AllFit out (t ∷ ts) = Fits out t × AllFit (expand out t) ts

length-expand : (out : List ℕ) (t : Token) → length out ≤ length (expand out t)
length-expand out (literals vs) = omega (arith, length-append out vs)
length-expand out (repeats n byte) = omega (arith, length-append out (replicate n byte))
length-expand out (copies n distance) = omega (arith, length-copied n distance out)

length-expand_all : (out : List ℕ) (ts : List Token) → length out ≤ length (expand_all out ts)
length-expand_all out [] = omega arith
length-expand_all out (t ∷ ts) =
    omega (arith, length-expand out t, length-expand_all (expand out t) ts)

-- The decoder writes what the tokens say: between two tokens, with pixels that hold an output and room
-- for the tokens' bytes, it reads the bytes of a list of tokens without refusing one, and then stands
-- between two tokens with the output that the tokens expand to.
pub run-tokens :
    (d d' : Decoder) (ts : List Token) (out : List ℕ)
    → Between d d' out
    → AllFit out ts
    → length (expand_all out ts) ≤ d.size
    → (d'' : Decoder) × (run d' (tokens_bytes ts) ≡ (true, d'')) × Between d d'' (expand_all out ts)
unfolding run
run-tokens d d' [] out b fit room = (d', refl, b)
run-tokens d d' (t ∷ ts) out (cells, r, distance, e, h, s) (fit, fits) room =
    let (d1, first, b1) =
      run-token d t cells out (tokens_bytes ts) r distance h s fit
        (omega (arith, length-expand_all (expand out t) ts)) in
    let (d2, next, b2) = run-tokens d d1 ts (expand out t) b1 fits room in
    (d2, ap (λ x. run x (token_bytes t ++ tokens_bytes ts)) e ∙ first ∙ next, b2)
