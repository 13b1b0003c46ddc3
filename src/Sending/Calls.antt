-- ===== src/Sending/Calls.antt =====
-- The functions of send_tracker.c that need the protocol's codes and the request layer.
use tele_bezel.Base.{
  ℕ, ◌+◌, ◌-◌, ◌%◌, ◌^◌, Bool, true, false, not, ◌&&◌, ◌||◌, Option, none, some, List, ltb, ◌==◌,
  if◌then◌else◌, take, length,
}
use tele_bezel.Base.Int.{ℤ, pos}
use tele_bezel.Codec.{Frame, cursor_init, next, decode}
use tele_bezel.Codec.Layouts.{SendStateRecord, layout_send_state}
use tele_bezel.Codec.Frames.{left, for_records, loop_fuel}
use tele_bezel.Requests.Layer.{Outcome, Response, no_args, response, cancelled}
use tele_bezel.Errors.{
  is_code, no_response, phone_unreachable, error_from_outcome, error_from_response,
}
use tele_bezel.Sending.{
  Protocol, Flags, Requests, Phase, submitting, pending, sent, failed, unknown, Target, Status,
  Tracker, no_status, no_target, blank, string_of, is_empty, is_settled, phase_number, same_code,
  same_target, notify, busy,
}

abbrev pub is_response : Outcome → Bool
is_response response = true
is_response _ = false

abbrev pub is_cancelled : Outcome → Bool
is_cancelled cancelled = true
is_cancelled _ = false

module _ {L : Type 0} (k : Protocol) (flag : Flags) (q : Requests L) where
  -- `phase_of`
  unfoldable pub phase_of : ℕ → Phase
  phase_of state =
      if state == k.state_sent
      then sent
      else if state == k.state_failed
      then failed
      else if state == k.state_unknown
      then unknown
      else pending

  -- `submit`
  unfoldable pub submit : ℕ → Tracker L → Bool × Tracker L
  submit kind t =
      let args = record no_args {
        kind = kind;
        draft_id = t.status.draft_id;
        attempt = t.attempt;
        account = take 36 t.status.target.account;
        chat = take 20 t.status.target.chat;
        message = take 20 t.status.target.reply;
      } in
      let (requests, sequence) = q.submit t.requests args 25000 3 (kind == k.request_send) in
      (not (sequence == 0), record t { requests = requests; pending = sequence })

  -- The status with what a record says of it.
  unfoldable pub updated : Status → SendStateRecord → Status
  updated s r = record s {
    phase = phase_of r.state;
    code = pos r.code;
    retry_after = r.retry_after;
    flags = r.flags;
    message = string_of 21 r.message;
    title = if r.title.length == 0 then s.title else string_of 33 r.title;
    preview = if r.preview.length == 0 then s.preview else string_of 41 r.preview;
  }

  -- `apply`
  unfoldable pub apply : SendStateRecord → Tracker L → Tracker L
  apply r t =
      let s = t.status in
      let same =
        phase_number s.phase == phase_number (phase_of r.state)
        && same_code s.code r.code
        && s.flags == r.flags in
      let t' = record t { status = updated s r } in
      if is_settled s.phase && not (is_settled (phase_of r.state))
      then t
      else if same
      then t'
      else notify t'

  -- `first_state`
  unfoldable pub first_state : List ℕ → Option SendStateRecord
  first_state payload = elim (next (cursor_init (some payload) (length payload))).0 [
    | none ↦ none
    | some f ↦
        let (ok, r, body) = decode f.body layout_send_state blank in
        if f.type == k.record_send_state && ok then some r else none
  ]

  -- The status of a draft whose request ended with an error before anything was settled.
  unfoldable pub failed_status : ℤ → Response → Status → Status
  failed_status error r s = record s {
    phase = failed;
    code = if is_code error k.results.ok then pos k.results.protocol_error else error;
    flags =
        if is_code error k.results.busy || is_code error k.results.send_rate_limited
        then flag.retryable
        else 0;
    retry_after = if ltb (2 ^ 16 - 1) r.retry_after then 2 ^ 16 - 1 else r.retry_after;
  }

  abbrev pub is_unknown : ℤ → Bool
  is_unknown error = is_code error no_response || is_code error phone_unreachable

  unfoldable pub after_error : ℤ → Response → Tracker L → Tracker L
  after_error error r t =
      if is_unknown error
      then record t { status = record t.status { phase = unknown; code = error } }
      else if is_settled t.status.phase
      then t
      else record t { status = failed_status error r t.status }

  -- The end of `completed`, where the answer says nothing of the draft.
  unfoldable pub refused : ℕ → Response → Tracker L → Tracker L
  refused sequence r t = notify (
      after_error (error_from_response k.results r) r
        (if r.final then t else record t { requests = q.cancel t.requests sequence }))

  abbrev pub stated : ℕ → Option SendStateRecord → Option SendStateRecord
  stated draft_id none = none
  stated draft_id (some r) = if r.draft_id == draft_id then some r else none

  -- `completed`
  unfoldable pub completed : ℕ → Response → Tracker L → Tracker L
  completed sequence r t =
      let t' = record t { pending = 0 } in
      let good = is_response r.outcome && is_code r.result k.results.ok in
      if not (sequence == t.pending) || is_cancelled r.outcome
      then t
      else elim (if good then stated t.status.draft_id (first_state r.payload) else none) [
        | none ↦ refused sequence r t'
        | some state ↦ apply state t'
      ]

  -- The end of `tb_send_start`: the draft's status starts anew and is submitted.
  unfoldable pub restart : Target → ℕ → List ℕ → List ℕ → ℕ → Tracker L → Tracker L
  restart target draft_id title preview attempt t =
      let status = record no_status {
        draft_id = draft_id;
        phase = submitting;
        target = target;
        title = take 32 title;
        preview = take 40 preview;
      } in
      let (ok, t') = submit k.request_send (record t { status = status; attempt = attempt }) in
      notify (
        if ok then t' else record t' {
          status = record status {
            phase = failed;
            code = error_from_outcome k.results (q.immediate t'.requests);
            flags = flag.retryable;
          };
        })

  -- `tb_send_start`, with a target that is not null; null strings are empty ones.
  unfoldable pub start : Target → ℕ → Bool → List ℕ → List ℕ → Tracker L → Bool × Tracker L
  start target draft_id again title preview t =
      let same_draft = t.status.draft_id == draft_id in
      let attempt =
        if same_draft && again
        then (t.attempt + 1) % 2 ^ 8
        else if same_draft
        then t.attempt
        else 0 in
      if draft_id == 0 || is_empty target.account || is_empty target.chat
      then (false, t)
      else if busy t
      then (same_draft && not again, t)
      else if same_draft && phase_number t.status.phase == 3
      then (false, t)
      else if same_draft
          && again
          && not (flag.has_retryable t.status.flags)
          && not (phase_number t.status.phase == 5)
      then (false, t)
      else (true, restart target draft_id title preview attempt t)

  -- `tb_send_check`
  unfoldable pub check : Tracker L → Bool × Tracker L
  check t =
      if t.status.draft_id == 0 || not (t.pending == 0) || is_settled t.status.phase
      then (false, t)
      else submit k.request_send_check t

  -- `tb_send_record`
  unfoldable pub take_record : SendStateRecord → Bool → Tracker L → Bool × Tracker L
  take_record r restored t =
      let fresh = record no_status {
        draft_id = r.draft_id;
        restored = true;
        target = record no_target { account = string_of 37 r.account; chat = string_of 21 r.chat };
      } in
      if r.draft_id == 0
      then (false, t)
      else if not (r.draft_id == t.status.draft_id)
      then if not restored || busy t
        then (false, t)
        else (true, apply r (record t { status = fresh; attempt = 0 }))
      else if same_target t.status.target r
      then (true, apply r t)
      else (false, t)

  -- The body of the loop of `tb_send_payload`.
  unfoldable pub take_frame : Frame → Bool × Tracker L → Bool × (Bool × Tracker L)
  take_frame f (any, t) =
      let (ok, r, body) = decode f.body layout_send_state blank in
      let (taken, t') = take_record r (f.type == k.record_pending_send) t in
      if (f.type == k.record_send_state || f.type == k.record_pending_send) && ok
      then (true, (taken || any, t'))
      else (true, (any, t))

  -- `tb_send_payload`
  unfoldable pub take_payload : List ℕ → Tracker L → Bool × Tracker L
  take_payload payload t = left (
      for_records take_frame (loop_fuel (length payload))
        (cursor_init (some payload) (length payload)) (false, t))

  -- `tb_send_close`
  unfoldable pub close : Tracker L → Tracker L
  close t =
      if t.pending == 0
      then t
      else record t { pending = 0; requests = q.cancel t.requests t.pending }
