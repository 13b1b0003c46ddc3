-- ===== src/Requests/Layer.antt =====
-- The request layer. The ports of the layer, and the callback that a slot holds, are parameters: `W` is
-- the state of the world they act on, which includes the state of the layer's clients. A callback may
-- call the layer again, so it takes and gives the whole state.
use tele_bezel.Base.{
  ℕ, zero, suc, ◌+◌, ◌-◌, Bool, true, false, not, ◌&&◌, ◌||◌, Option, none, some, List, [], ◌∷◌,
  ltb, ◌==◌, if◌then◌else◌, get_or, set, add32, sub32, reached,
}
use tele_bezel.Base.Int.{ℤ, pos}

-- `TbSendResult`
pub data SendResult : Type 0 where
  sent failed unreachable busy : SendResult

-- `TbRequestOutcome`
pub data Outcome : Type 0 where
  response timeout unreachable cancelled protocol : Outcome

-- `TbRequestArgs`
pub record RequestArgs : Type 0 where
  pub kind : ℕ
  pub page_op : ℕ
  pub list : ℕ
  pub page_limit : ℕ
  pub text_limit : ℕ
  pub account : List ℕ
  pub chat : List ℕ
  pub message : List ℕ
  pub draft_id : ℕ
  pub templates_rev : ℕ
  pub template_index : ℕ
  pub attempt : ℕ
  pub payload : Option (List ℕ)
  pub media_index : ℕ
  pub media_spec : List ℕ
  pub media_offset : ℕ
  pub media_tag : ℕ

-- `TbResponse`; the payload comes with its length.
pub record Response : Type 0 where
  pub outcome : Outcome
  pub result : ℤ
  pub flags : ℕ
  pub retry_after : ℕ
  pub payload : List ℕ
  pub index : ℕ
  pub total : ℕ
  pub final : Bool

-- `TbRequestSlot`; `callback` names a callback with its owner, or is null.
pub record Slot : Type 0 where
  pub active : Bool
  pub queued : Bool
  pub resend_on_timeout : Bool
  pub unreachable : Bool
  pub attempts : ℕ
  pub max_attempts : ℕ
  pub next_chunk : ℕ
  pub sequence : ℕ
  pub timeout : ℕ
  pub deadline : ℕ
  pub queued_since : ℕ
  pub callback : Option ℕ
  pub args : RequestArgs

-- `TbRequestLayer`, with the world that its ports act on.
pub record State (W : Type 0) : Type 0 where
  pub slots : List Slot
  pub next_sequence : ℕ
  pub submitting : Bool
  pub immediate : Outcome
  pub world : W

-- `TbRequestPorts`, and what a call of a callback does.
pub record Ports (W : Type 0) : Type 0 where
  pub send : W → ℕ → RequestArgs → SendResult × W
  pub schedule : W → ℕ → W
  pub cancel : W → W
  pub now : W → ℕ
  pub call : ℕ → ℕ → Response → State W → State W

abbrev pub slot_count : ℕ
slot_count = 4

abbrev pub queue_retry : ℕ
queue_retry = 100

abbrev pub no_args : RequestArgs
no_args = record {
  kind = 0;
  page_op = 0;
  list = 0;
  page_limit = 0;
  text_limit = 0;
  account = [];
  chat = [];
  message = [];
  draft_id = 0;
  templates_rev = 0;
  template_index = 0;
  attempt = 0;
  payload = none;
  media_index = 0;
  media_spec = [];
  media_offset = 0;
  media_tag = 0;
}

-- An inactive slot, for a read out of range.
abbrev pub no_slot : Slot
no_slot = record {
  active = false;
  queued = false;
  resend_on_timeout = false;
  unreachable = false;
  attempts = 0;
  max_attempts = 0;
  next_chunk = 0;
  sequence = 0;
  timeout = 0;
  deadline = 0;
  queued_since = 0;
  callback = none;
  args = no_args;
}

abbrev pub slot_at : List Slot → ℕ → Slot
slot_at slots i = get_or slots i no_slot

abbrev pub holds : ℕ → Slot → Bool
holds sequence s = s.active && s.sequence == sequence

-- The first slot that passes a test, counted from `i`.
unfoldable pub search_from : (Slot → Bool) → List Slot → ℕ → Option ℕ
search_from test [] i = none
search_from test (s ∷ slots) i = if test s then some i else search_from test slots (i + 1)

-- `find`: the index of the slot
unfoldable pub find : List Slot → ℕ → Option ℕ
find slots sequence = if sequence == 0 then none else search_from (holds sequence) slots 0

-- `tb_requests_pending`
unfoldable pub pending : List Slot → ℕ → Bool
pending [] sequence = false
pending (s ∷ slots) sequence = holds sequence s || pending slots sequence

-- The loop of `arm`: the least time that is left, if any slot is active.
unfoldable pub earliest : ℕ → List Slot → Option ℕ → Option ℕ
earliest now [] best = best
earliest now (s ∷ slots) best =
    let remaining = if reached now s.deadline then 0 else sub32 s.deadline now in
    earliest now slots (
      if not s.active then best else elim best [
        | none ↦ some remaining
        | some e ↦ if ltb remaining e then some remaining else some e
      ])

abbrev pub answer : Outcome → ℤ → Response
answer outcome result = record {
  outcome = outcome;
  result = result;
  flags = 0;
  retry_after = 0;
  payload = [];
  index = 0;
  total = 1;
  final = true;
}

module _ {W : Type 0} (p : Ports W) where
  -- The slot at an index, changed.
  abbrev put : State W → ℕ → Slot → State W
  put s i slot = record s { slots = set s.slots i slot }

  -- `arm`
  unfoldable pub arm : State W → State W
  arm s =
      let world = p.cancel s.world in
      elim (earliest (p.now world) s.slots none) [
        | none ↦ record s { world = world }
        | some e ↦ record s { world = p.schedule world (if e == 0 then 1 else e) }
      ]

  abbrev notify : Option ℕ → ℕ → Response → State W → State W
  notify none sequence r s = s
  notify (some callback) sequence r s = p.call callback sequence r s

  -- `complete`, of the slot at `i`
  unfoldable pub complete : State W → ℕ → Outcome → ℤ → State W
  complete s i outcome result =
      let slot = slot_at s.slots i in
      let s' = arm (put s i (record slot { active = false })) in
      if s'.submitting
      then record s' { immediate = outcome }
      else notify slot.callback slot.sequence (answer outcome result) s'

  -- The end of `attempt`, after its loop.
  unfoldable pub give_up : State W → ℕ → State W
  give_up s i =
      complete s i
        (if (slot_at s.slots i).unreachable then Outcome.unreachable else Outcome.timeout) (pos 0)

  -- A busy transport: the request waits in the queue, unless it has waited for its timeout.
  unfoldable pub enqueue : ℕ → State W → ℕ → State W
  enqueue now s i =
      let slot = slot_at s.slots i in
      let since = if slot.queued then slot.queued_since else now in
      let s' = put s i (record slot { queued_since = since }) in
      if slot.queued && reached now (add32 since slot.timeout)
      then give_up s' i
      else arm (
          put s i
            (record slot { queued_since = since; queued = true; deadline = add32 now queue_retry }))

  -- The loop of `attempt`, with the attempts that are left. `attempts` is below `max_attempts`, a
  -- `uint8_t`, where it grows.
  unfoldable pub attempt_loop : ℕ → ℕ → State W → ℕ → State W
  attempt_loop zero now s i = give_up s i
  attempt_loop (suc left) now s i =
      let slot = slot_at s.slots i in
      let (result, world) = p.send s.world slot.sequence slot.args in
      let s' = record s { world = world } in
      let counted = record slot { attempts = slot.attempts + 1; queued = false } in
      elim result [
        | busy ↦ enqueue now s' i
        | sent ↦ arm (put s' i (record counted { deadline = add32 now slot.timeout }))
        | failed ↦ attempt_loop left now (put s' i (record counted { unreachable = false })) i
        | unreachable ↦ attempt_loop left now (put s' i (record counted { unreachable = true })) i
      ]

  -- `attempt`
  unfoldable pub attempt : State W → ℕ → State W
  attempt s i =
      let slot = slot_at s.slots i in
      attempt_loop (slot.max_attempts - slot.attempts) (p.now s.world) s i
