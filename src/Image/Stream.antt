-- ===== src/Image/Stream.antt =====
-- The decoder works on a stream: pixel bytes may be cut into calls of `tb_image_feed` where it asks for more.
use tele_bezel.Base.{
  ℕ, zero, suc, ◌+◌, ◌-◌, ◌*◌, ◌≡◌, refl, sym, ap, ◌∙◌, Bool, true, false, ◌&&◌, List, [], ◌∷◌,
  ◌++◌, arith, leb, length,
}
use tele_bezel.Image.Decoder.{
  Decoder, Fed, more, bad, is_null, cell, Op, no_op, literal, repeat, distance_low, distance_high,
  is_no_op, emit, emit_repeat, emit_copy, step_start, step_literal, step_distance, step_op, step,
  run, feed, finish,
}

-- What a call leaves alone.
abbrev Kept : Decoder → Decoder → Type 0
Kept d d' = (d'.header_read ≡ d.header_read) × (is_null d'.pixels ≡ is_null d.pixels)

emit-Kept : (d : Decoder) (value : ℕ) → Kept d (emit d value).1
unfolding emit
emit-Kept d value = ground arith

emit_repeat-Kept : (n byte : ℕ) (d : Decoder) → Kept d (emit_repeat n byte d).1
unfolding emit_repeat
emit_repeat-Kept zero byte d = (refl, refl)
emit_repeat-Kept (suc n) byte d =
    ground
      (arith, emit-Kept d byte, emit_repeat-Kept n byte (record (emit d byte).1 { remaining = n }))

emit_copy-Kept : (n : ℕ) (d : Decoder) → Kept d (emit_copy n d).1
unfolding emit_copy
emit_copy-Kept zero d = (refl, refl)
emit_copy-Kept (suc n) d =
    let value = cell d.pixels (d.filled - d.distance) in
    ground (arith, emit-Kept d value, emit_copy-Kept n (record (emit d value).1 { remaining = n }))

step_op-Kept : (op : Op) (d : Decoder) (byte : ℕ) → Kept d (step_op op d byte).1
unfolding step_op step_start step_literal step_distance
step_op-Kept no_op d byte = ground arith
step_op-Kept literal d byte = ground (arith, emit-Kept d byte)
step_op-Kept repeat d byte = ground (arith, emit_repeat-Kept d.remaining byte d)
step_op-Kept distance_low d byte = (refl, refl)
step_op-Kept distance_high d byte =
    ground (arith, emit_copy-Kept d.remaining (record d { distance = d.distance + byte * 256 }))

step-Kept : (d : Decoder) (byte : ℕ) → Kept d (step d byte).1
unfolding step
step-Kept d byte = step_op-Kept d.op d byte

-- One round of the loop, over a step that is not looked into.
abbrev round : Bool → Bool × Decoder → Decoder → List ℕ → Bool × Decoder
round stop (go, d') d bytes = elim stop [
  | true ↦ (false, d)
  | false ↦ elim go [ false ↦ (false, d') | true ↦ run d' bytes ]
]

abbrev then_run : Bool × Decoder → List ℕ → Bool × Decoder
then_run (go, d) bytes = elim go [ true ↦ run d bytes | false ↦ (false, d) ]

round-append :
    (stop go : Bool) (d' d : Decoder) (xs ys : List ℕ)
    → run d' (xs ++ ys) ≡ then_run (run d' xs) ys
    → round stop (go, d') d (xs ++ ys) ≡ then_run (round stop (go, d') d xs) ys
round-append true go d' d xs ys ih = refl
round-append false true d' d xs ys ih = ih
round-append false false d' d xs ys ih = refl

round-Kept :
    (stop go : Bool) (d' d : Decoder) (xs : List ℕ)
    → Kept d d'
    → Kept d' (run d' xs).1
    → Kept d (round stop (go, d') d xs).1
round-Kept true go d' d xs k ih = (refl, refl)
round-Kept false true d' d xs k ih = (ih.0 ∙ k.0, ih.1 ∙ k.1)
round-Kept false false d' d xs k ih = k

-- Cutting the bytes of a run in two changes nothing: the second part goes on where the first stopped.
run-append : (d : Decoder) (xs ys : List ℕ) → run d (xs ++ ys) ≡ then_run (run d xs) ys
unfolding run
run-append d [] ys = refl
run-append d (x ∷ xs) ys =
    round-append (leb d.size d.filled && is_no_op d.op) (step d x).0 (step d x).1 d xs ys
      (run-append (step d x).1 xs ys)

run-Kept : (d : Decoder) (bytes : List ℕ) → Kept d (run d bytes).1
unfolding run
run-Kept d [] = (refl, refl)
run-Kept d (x ∷ xs) =
    round-Kept (leb d.size d.filled && is_no_op d.op) (step d x).0 (step d x).1 d xs (step-Kept d x)
      (run-Kept (step d x).1 xs)

abbrev end : Bool × Decoder → ℕ → Fed
end (go, d) n = elim go [ true ↦ finish d n | false ↦ (bad, 0, d) ]

-- A feed over pixel bytes is a run and its end.
feed-run :
    (d : Decoder) (bytes : List ℕ)
    → d.header_read ≡ true
    → is_null d.pixels ≡ false
    → feed d bytes ≡ end (run d bytes) (length bytes)
unfolding feed
feed-run d bytes ready there = ground arith

finish-state : (d : Decoder) (n : ℕ) → (finish d n).2 ≡ d
unfolding finish
finish-state d n = ground arith

finish-status : (d : Decoder) (n m : ℕ) → (finish d n).0 ≡ (finish d m).0
unfolding finish
finish-status d n m = ground arith

end-more : (r : Bool × Decoder) (m n : ℕ) (d' : Decoder) → end r m ≡ (more, n, d') → r ≡ (true, d')
end-more (true, d) m n d' e = ap (λ x. (true, x)) (sym (finish-state d m) ∙ ap (λ (f : Fed). f.2) e)
end-more (false, d) m n d' e = cc

end-same :
    (r : Bool × Decoder) (m n : ℕ) → ((end r m).0 ≡ (end r n).0) × ((end r m).2 ≡ (end r n).2)
end-same (true, d) m n = (finish-status d m n, finish-state d m ∙ sym (finish-state d n))
end-same (false, d) m n = (refl, refl)

-- A stream of pixel bytes may be cut anywhere: where the decoder asks for more after the first part,
-- feeding the second part then ends in the same status and the same decoder as feeding both at once.
pub feed-append :
    (d d' : Decoder) (xs ys : List ℕ) (n : ℕ)
    → d.header_read ≡ true
    → is_null d.pixels ≡ false
    → feed d xs ≡ (more, n, d')
    → ((feed d (xs ++ ys)).0 ≡ (feed d' ys).0) × ((feed d (xs ++ ys)).2 ≡ (feed d' ys).2)
feed-append d d' xs ys n ready there e =
    let first : run d xs ≡ (true, d') =
      end-more (run d xs) (length xs) n d' (sym (feed-run d xs ready there) ∙ e) in
    let kept : Kept d d' = rw first at (run-Kept d xs) in
    rw
      (
        feed-run d (xs ++ ys) ready there,
        run-append d xs ys,
        first,
        feed-run d' ys (kept.0 ∙ ready) (kept.1 ∙ there),
      )
      (end-same (run d' ys) (length (xs ++ ys)) (length ys))
