-- ===== src/Reading/Room.antt =====
-- A part that is added to the text of a message stays within the block, and the block within the limit.
use tele_bezel.Base.{
  ℕ, zero, suc, ◌+◌, ◌-◌, ◌*◌, ◌≤◌, ◌<◌, ◌≡◌, Bool, true, some, List, arith, ltb, ◌==◌,
  if◌then◌else◌, length, take, Bool-cases, Option-cases, inl, inr, length-append, length-take,
}
use tele_bezel.Codec.{Span}
use tele_bezel.Text.{back_up}
use tele_bezel.Sending.{Requests}
use tele_bezel.Reading.{Codes, Reader, grow, part_size, text_of, reserve, add_part, chunk_size}

grow-reaches : (fuel capacity n : ℕ) → 0 < capacity → n ≤ capacity + fuel → n ≤ grow fuel capacity n
unfolding grow
grow-reaches zero capacity n p h = omega arith
grow-reaches (suc fuel) capacity n p h = elim (Bool-cases (ltb capacity n)) [
  | inl e ↦ rw (e, grow) (grow-reaches fuel (capacity * 2) n (omega arith) (omega arith))
  | inr e ↦ rw (e, grow) (ground arith)
]

back_up-le : (bytes : List ℕ) (size : ℕ) → back_up bytes size ≤ size
unfolding back_up
back_up-le bytes zero = omega arith
back_up-le bytes (suc size) = ground (arith, back_up-le bytes size)

part_size-le : (bytes : List ℕ) (length room : ℕ) → part_size bytes length room ≤ room
unfolding part_size
part_size-le bytes length room = ground (arith, back_up-le bytes room)

-- The text fits its block, and the block the limit.
pub record IsRoomy {L : Type 0} (r : Reader L) : Type 0 where
  pub text_in : length (text_of r.text) ≤ r.capacity
  pub capacity_in : r.capacity ≤ r.limit

module _ {L : Type 0} (k : Codes) (memory : Bool) (q : Requests L) where
  reserve-room :
      (n : ℕ) (r r' : Reader L)
      → r.capacity ≤ r.limit
      → n ≤ r.limit
      → reserve k memory q n r ≡ some r'
      → (n ≤ r'.capacity) × (r'.capacity ≤ r'.limit)
  unfolding reserve
  reserve-room n r r' h w e = ground (
    arith,
    h,
    grow-reaches n (if r.capacity == 0 then chunk_size else r.capacity) n (ground arith)
        (omega arith),
  )

  -- A part of the text that is added to text within its block and its limit leaves it within both,
  -- whether the heap grants a larger block or not.
  pub add_part-IsRoomy :
      (part : Span) (r : Reader L) → IsRoomy r → IsRoomy (add_part k memory q part r).1
  unfolding add_part
  add_part-IsRoomy part r h =
      let old : ℕ = length (text_of r.text) in
      let size : ℕ = part_size part.bytes part.length (r.limit - old) in
      let le : size ≤ r.limit - old = part_size-le part.bytes part.length (r.limit - old) in
      let r1 : Reader L = record r {
        truncated = if ltb size part.length then true else r.truncated;
      } in
      elim (Option-cases (reserve k memory q (old + size) r1)) [
        | inl e ↦ rw (e, add_part) (record { text_in = h.text_in; capacity_in = h.capacity_in })
        | inr (r2, e) ↦
            let (room, within) =
              reserve-room (old + size) r1 r2 h.capacity_in
                (omega (arith, le, h.text_in, h.capacity_in)) e in
            rw (e, add_part)
              (record {
                text_in = omega (
                  arith,
                  room,
                  length-append (text_of r.text) (take size part.bytes),
                  length-take size part.bytes,
                );
                capacity_in = within;
              })
      ]
