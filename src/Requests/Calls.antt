-- ===== src/Requests/Calls.antt =====
-- The public functions of request_layer.c.
use tele_bezel.Base.{
  ℕ, zero, suc, ◌+◌, ◌-◌, ◌%◌, ◌^◌, Bool, true, false, not, ◌&&◌, ◌||◌, Option, none, some, List,
  ltb, leb, ◌==◌, if◌then◌else◌, set, add32, reached, replicate,
}
use tele_bezel.Base.Int.{ℤ, pos}
use tele_bezel.Requests.Layer.{
  Outcome, RequestArgs, Response, Slot, State, Ports, slot_count, slot_at, no_slot, search_from,
  find, answer, arm, complete, attempt,
}

abbrev pub is_some : Option ℕ → Bool
is_some none = false
is_some (some i) = true

-- `do { ++layer->next_sequence; } while (...)`: the next number that is not zero, not above
-- `INT32_MAX` and not in flight. `none` is the end of the fuel, which Sequence rules out.
unfoldable pub pick_sequence : ℕ → List Slot → ℕ → Option ℕ
pick_sequence zero slots n = none
pick_sequence (suc fuel) slots n =
    let next = (n + 1) % 2 ^ 32 in
    elim (next == 0 || ltb (2 ^ 31 - 1) next || is_some (find slots next)) [
      | true ↦ pick_sequence fuel slots next
      | false ↦ some next
    ]

-- Rounds enough for every number once and again.
abbrev pub pick_fuel : ℕ
pick_fuel = 2 ^ 33

-- `tb_requests_init`; what a slot holds while it is inactive is not read.
unfoldable pub init : {W : Type 0} → W → State W
init world = record {
  slots = replicate slot_count no_slot;
  next_sequence = 0;
  submitting = false;
  immediate = Outcome.timeout;
  world = world;
}

module _ {W : Type 0} (p : Ports W) where
  abbrev submit_with : State W → ℕ → ℕ → Slot → State W × ℕ
  submit_with s i sequence slot =
      let started = record s {
        slots = set s.slots i slot;
        next_sequence = sequence;
        submitting = true;
        immediate = Outcome.timeout;
      } in
      let s' = record (attempt p started i) { submitting = false } in
      let slot' = slot_at s'.slots i in
      (s', if slot'.active && slot'.sequence == sequence then sequence else 0)

  -- `tb_requests_submit`, with arguments that are not null: the state and the sequence, or 0.
  unfoldable pub submit : State W → RequestArgs → ℕ → ℕ → Bool → Option ℕ → State W × ℕ
  submit s args timeout max_attempts resend callback =
      elim (search_from (λ slot. not slot.active) s.slots 0) [
        | none ↦ (record s { immediate = Outcome.timeout }, 0)
        | some i ↦
            if max_attempts == 0
            then (record s { immediate = Outcome.timeout }, 0)
            else elim (pick_sequence pick_fuel s.slots s.next_sequence) [
              | none ↦ (s, 0)
              | some sequence ↦ submit_with s i sequence (record (slot_at s.slots i) {
                active = true;
                queued = false;
                resend_on_timeout = resend;
                unreachable = false;
                attempts = 0;
                max_attempts = max_attempts;
                next_chunk = 0;
                sequence = sequence;
                timeout = timeout;
                callback = callback;
                args = args;
              })
            ]
      ]

  abbrev deliver : Option ℕ → ℕ → Response → State W → State W
  deliver none sequence r s = s
  deliver (some callback) sequence r s = p.call callback sequence r s

  -- A chunk for the slot at `i` whose index is the one that is due.
  unfoldable pub accept_chunk : State W → ℕ → ℕ → Response → State W
  accept_chunk s i sequence chunk =
      let slot = slot_at s.slots i in
      let final = chunk.index + 1 == chunk.total in
      let slot' = if final then record slot { active = false } else record slot {
        next_chunk = (slot.next_chunk + 1) % 2 ^ 16;
        deadline = add32 (p.now s.world) slot.timeout;
      } in
      deliver slot.callback sequence (record chunk { outcome = Outcome.response; final = final })
        (arm p (record s { slots = set s.slots i slot' }))

  -- `tb_requests_chunk`: the state, and whether the request was in flight.
  unfoldable pub chunk : State W → ℕ → Response → State W × Bool
  chunk s sequence c = elim (find s.slots sequence) [
    | none ↦ (s, false)
    | some i ↦
        if c.total == 0 || leb c.total c.index || not (c.index == (slot_at s.slots i).next_chunk)
        then (complete p s i Outcome.protocol (pos 0), true)
        else (accept_chunk s i sequence c, true)
  ]

  -- `tb_requests_response`
  unfoldable pub response : State W → ℕ → ℤ → State W × Bool
  response s sequence result =
      chunk s sequence (record (answer Outcome.response result) { final = false })

  -- `tb_requests_send_failed`
  unfoldable pub send_failed : State W → ℕ → Bool → State W
  send_failed s sequence unreachable = elim (find s.slots sequence) [
    | none ↦ s
    | some i ↦
        let slot = slot_at s.slots i in
        if ltb 0 slot.next_chunk
        then s
        else attempt p
            (record s { slots = set s.slots i (record slot { unreachable = unreachable }) }) i
  ]

  -- `tb_requests_outbox_ready`
  unfoldable pub outbox_ready : State W → State W
  outbox_ready s = elim (search_from (λ slot. slot.active && slot.queued) s.slots 0) [
    | none ↦ s
    | some i ↦ attempt p s i
  ]

  -- One round of the loop of `tb_requests_tick`.
  unfoldable pub tick_slot : ℕ → State W → ℕ → State W
  tick_slot now s i =
      let slot = slot_at s.slots i in
      if not slot.active || not (reached now slot.deadline)
      then s
      else if slot.queued || (slot.resend_on_timeout && slot.next_chunk == 0)
      then attempt p (record s { slots = set s.slots i (record slot { unreachable = false }) }) i
      else complete p s i Outcome.timeout (pos 0)

  -- `tb_requests_tick`, over its four slots. Callbacks of one round act before the next.
  unfoldable pub tick : State W → State W
  tick s =
      let now = p.now s.world in
      arm p (tick_slot now (tick_slot now (tick_slot now (tick_slot now s 0) 1) 2) 3)

  -- `tb_requests_cancel`
  unfoldable pub cancel : State W → ℕ → State W
  cancel s sequence = elim (find s.slots sequence) [
    | none ↦ s
    | some i ↦ complete p s i Outcome.cancelled (pos 0)
  ]

  unfoldable pub cancel_slot : State W → ℕ → State W
  cancel_slot s i =
      if (slot_at s.slots i).active then complete p s i Outcome.cancelled (pos 0) else s

  -- `tb_requests_cancel_all`
  unfoldable pub cancel_all : State W → State W
  cancel_all s =
      let s' = cancel_slot (cancel_slot (cancel_slot (cancel_slot s 0) 1) 2) 3 in
      record s' { world = p.cancel s'.world }
