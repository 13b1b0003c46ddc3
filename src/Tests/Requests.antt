-- ===== src/Tests/Requests.antt =====
-- Runs of the functions of request_layer.c.
use tele_bezel.Base.{ℕ, suc, ◌≡◌, ◌⊎◌, refl, true, none, some, List, [], ◌∷◌, arith}
use tele_bezel.Requests.Layer.{Slot, State, Ports, SendResult, no_slot, no_args}
use tele_bezel.Requests.Calls.{init, submit, pick_sequence, pick_fuel}
use tele_bezel.Requests.Sequence.{IsFree, submit-IsFree, pick_sequence_total}

-- A world that counts what was sent, with a clock that stands still.
abbrev counting : Ports ℕ
counting = record {
  send = λ w sequence args. (SendResult.sent, suc w);
  schedule = λ w delay. w;
  cancel = λ w. w;
  now = λ w. 0;
  call = λ callback sequence r s. s;
}

abbrev one_active : List Slot
one_active = record no_slot { active = true; sequence = 1 } ∷ no_slot ∷ no_slot ∷ no_slot ∷ []

abbrev start : State ℕ
unfolding init
start = init 0

submit-IsFree_example :
    ((submit counting start no_args 10 3 true none).1 ≡ 0)
    ⊎ IsFree start.slots (submit counting start no_args 10 3 true none).1
submit-IsFree_example = submit-IsFree counting start no_args 10 3 true none

pick_sequence_total_example :
    (q : ℕ) × (pick_sequence pick_fuel one_active 0 ≡ some q) × IsFree one_active q
pick_sequence_total_example = pick_sequence_total one_active 0 refl (omega arith)
