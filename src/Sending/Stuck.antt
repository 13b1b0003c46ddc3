-- ===== src/Sending/Stuck.antt =====
-- A message that is shown as being submitted waits for the answer to a request, and what the tracker makes
-- of an answer.
use tele_bezel.Base.{
  ℕ, ◌+◌, ◌%◌, ◌^◌, ◌≡◌, refl, Bool, true, false, not, ◌&&◌, ◌||◌, Option, none, some, List, [],
  ◌∷◌, ◌==◌, if◌then◌else◌, arith, length, Bool-cases, inl, inr,
}
use tele_bezel.Base.Int.{ℤ}
use tele_bezel.Codec.{Frame, cursor_init, decode}
use tele_bezel.Errors.{is_code, error_from_response}
use tele_bezel.Codec.Layouts.{SendStateRecord, layout_send_state}
use tele_bezel.Codec.Frames.{for_records-keeps, loop_fuel}
use tele_bezel.Requests.Layer.{Response}
use tele_bezel.Sending.{
  Protocol, Flags, Requests, Phase, no_status, no_target, string_of, same_code, blank, Tracker,
  Target, phase_number, is_settled, idle, submitting, pending, sent, failed, unknown, notify,
  forget, busy, init,
}
use tele_bezel.Sending.Calls.{
  is_unknown, failed_status, after_error, is_response, is_cancelled, stated, first_state, phase_of,
  submit, updated, apply, refused, completed, restart, start, check, take_record, take_frame,
  take_payload,
}

-- Not shown as being submitted without a request that is awaited.
pub record IsLive {L : Type 0} (t : Tracker L) : Type 0 where
  pub live : (phase_number t.status.phase == 1 && t.pending == 0) ≡ false

not_submitting : (phase : Phase) → is_settled phase ≡ true → (phase_number phase == 1) ≡ false
unfolding is_settled
not_submitting sent e = refl
not_submitting failed e = refl
not_submitting idle e = refl
not_submitting submitting e = absurd (ground arith)
not_submitting pending e = refl
not_submitting unknown e = refl

-- Not shown as being submitted, and no request is awaited.
pub record Moved {L : Type 0} (t : Tracker L) : Type 0 where
  pub phase_left : (phase_number t.status.phase == 1) ≡ false
  pub pending_over : t.pending ≡ 0

-- A call of a function of send_tracker.h, or an answer.
pub data Event : Type 0 where
  started : Target → ℕ → Bool → List ℕ → List ℕ → Event
  checked : Event
  answered : ℕ → Response → Event
  told_of : SendStateRecord → Bool → Event
  received : List ℕ → Event
  forgotten : ℕ → Event

IsLive-if :
    {L : Type 0} (c : Bool) (t t' : Tracker L) → IsLive t → IsLive t' → IsLive (if c then t else t')
IsLive-if true t t' e e' = e
IsLive-if false t t' e e' = e'

IsLive-phase : {L : Type 0} (t : Tracker L) → (phase_number t.status.phase == 1) ≡ false → IsLive t
IsLive-phase t e = record { live = rw e refl }

module _ {L : Type 0} (k : Protocol) (flag : Flags) (q : Requests L) where
  phase_of-number : (state : ℕ) → (phase_number (phase_of k flag q state) == 1) ≡ false
  unfolding phase_of
  phase_of-number state = ground arith

  apply-IsLive : (r : SendStateRecord) (t : Tracker L) → IsLive (apply k flag q r t)
  unfolding apply updated notify
  apply-IsLive r t =
      elim (Bool-cases
        (is_settled t.status.phase && not (is_settled (phase_of k flag q r.state)))) [
          | inl e ↦ rw (e, apply) (IsLive-phase t (not_submitting t.status.phase (ground arith)))
          | inr e ↦
              rw (e, apply)
                (let c : Bool =
                    phase_number t.status.phase == phase_number (phase_of k flag q r.state)
                    && same_code t.status.code r.code
                    && t.status.flags == r.flags in
                  let t' : Tracker L = record t { status = updated k flag q t.status r } in
                  IsLive-if c t' (notify t') (IsLive-phase t' (phase_of-number r.state))
                    (IsLive-phase (notify t') (phase_of-number r.state)))
        ]

  IsLive-settled :
      (t t' : Tracker L) → IsLive t' → IsLive (if is_settled t.status.phase then t else t')
  IsLive-settled t t' h = elim (Bool-cases (is_settled t.status.phase)) [
    | inl e ↦ rw e (IsLive-phase t (not_submitting t.status.phase e))
    | inr e ↦ rw e h
  ]

  notify-IsLive : (t : Tracker L) → IsLive t → IsLive (notify t)
  unfolding notify
  notify-IsLive t h = record { live = h.live }

  after_error-IsLive :
      (error : ℤ) (r : Response) (t : Tracker L) → IsLive (after_error k flag q error r t)
  unfolding after_error failed_status
  after_error-IsLive error r t =
      let lost : Tracker L = record t {
        status = record t.status { phase = unknown; code = error };
      } in
      let failure : Tracker L = record t { status = failed_status k flag q error r t.status } in
      let rest : Tracker L = if is_settled t.status.phase then t else failure in
      IsLive-if (is_unknown k flag q error) lost rest (record { live = refl })
        (IsLive-settled t failure (record { live = refl }))

  refused-IsLive :
      (sequence : ℕ) (r : Response) (t : Tracker L) → IsLive (refused k flag q sequence r t)
  unfolding refused
  refused-IsLive sequence r t =
      let t' : Tracker L =
        if r.final then t else record t { requests = q.cancel t.requests sequence } in
      let error : ℤ = error_from_response k.results r in
      notify-IsLive (after_error k flag q error r t') (after_error-IsLive error r t')

  restart-IsLive :
      (target : Target) (draft_id : ℕ) (title preview : List ℕ) (attempt : ℕ) (t : Tracker L)
      → IsLive (restart k flag q target draft_id title preview attempt t)
  unfolding restart submit notify
  restart-IsLive target draft_id title preview attempt t = ground arith

  answered-IsLive :
      (sequence : ℕ) (r : Response) (t : Tracker L) (o : Option SendStateRecord)
      → IsLive
          (elim o [ none ↦ refused k flag q sequence r t | some state ↦ apply k flag q state t ])
  answered-IsLive sequence r t none = refused-IsLive sequence r t
  answered-IsLive sequence r t (some state) = apply-IsLive state t

  completed-IsLive :
      (sequence : ℕ) (r : Response) (t : Tracker L)
      → IsLive t
      → IsLive (completed k flag q sequence r t)
  unfolding completed
  completed-IsLive sequence r t h =
      let t' : Tracker L = record t { pending = 0 } in
      let o : Option SendStateRecord =
        if is_response r.outcome && is_code r.result k.results.ok
        then stated k flag q t.status.draft_id (first_state k flag q r.payload)
        else none in
      IsLive-if (not (sequence == t.pending) || is_cancelled r.outcome) t
        (elim o [ none ↦ refused k flag q sequence r t' | some state ↦ apply k flag q state t' ]) h
        (answered-IsLive sequence r t' o)

  apply-pending : (r : SendStateRecord) (t : Tracker L) → (apply k flag q r t).pending ≡ t.pending
  unfolding apply notify
  apply-pending r t = ground arith

  refused-pending :
      (sequence : ℕ) (r : Response) (t : Tracker L)
      → (refused k flag q sequence r t).pending ≡ t.pending
  unfolding refused after_error notify
  refused-pending sequence r t = ground arith

  answered-pending :
      (sequence : ℕ) (r : Response) (t : Tracker L) (o : Option SendStateRecord)
      → (elim o as (λ _. Tracker L) [
        | none ↦ refused k flag q sequence r t
        | some state ↦ apply k flag q state t
      ]).pending
        ≡ t.pending
  answered-pending sequence r t none = refused-pending sequence r t
  answered-pending sequence r t (some state) = apply-pending state t

  -- The answer to the request that is awaited.
  completed-pending :
      (r : Response) (t : Tracker L)
      → is_cancelled r.outcome ≡ false
      → (completed k flag q t.pending r t).pending ≡ 0
  unfolding completed
  completed-pending r t n =
      let t' : Tracker L = record t { pending = 0 } in
      let o : Option SendStateRecord =
        if is_response r.outcome && is_code r.result k.results.ok
        then stated k flag q t.status.draft_id (first_state k flag q r.payload)
        else none in
      let own : (not (t.pending == t.pending) || is_cancelled r.outcome) ≡ false =
        ground (arith, n) in
      rw own (answered-pending t.pending r t' o)

  completed-Moved :
      (r : Response) (t : Tracker L)
      → is_cancelled r.outcome ≡ false
      → IsLive t
      → Moved (completed k flag q t.pending r t)
  completed-Moved r t n h =
      let t' : Tracker L = completed k flag q t.pending r t in
      let over : t'.pending ≡ 0 = completed-pending r t n in
      let live : (phase_number t'.status.phase == 1 && t'.pending == 0) ≡ false =
        (completed-IsLive t.pending r t h).live in
      record { phase_left = ground (arith, live, over); pending_over = over }

  start-IsLive :
      (target : Target) (draft_id : ℕ) (again : Bool) (title preview : List ℕ) (t : Tracker L)
      → IsLive t
      → IsLive (start k flag q target draft_id again title preview t).1
  unfolding start
  start-IsLive target draft_id again title preview t h = ground (
    arith,
    h.live,
    (restart-IsLive target draft_id title preview ((t.attempt + 1) % 2 ^ 8) t).live,
    (restart-IsLive target draft_id title preview t.attempt t).live,
    (restart-IsLive target draft_id title preview 0 t).live,
  )

  check-IsLive : (t : Tracker L) → IsLive t → IsLive (check k flag q t).1
  unfolding check submit
  check-IsLive t h = ground (arith, h.live)

  forget-IsLive : (draft_id : ℕ) (t : Tracker L) → IsLive t → IsLive (forget draft_id t)
  unfolding forget
  forget-IsLive draft_id t h =
      IsLive-if (not (t.status.draft_id == draft_id) || busy t) t (record t { status = no_status })
        h (record { live = refl })

  take_record-IsLive :
      (r : SendStateRecord) (restored : Bool) (t : Tracker L)
      → IsLive t
      → IsLive (take_record k flag q r restored t).1
  unfolding take_record
  take_record-IsLive r restored t h =
      let fresh : Tracker L = record t {
        status = record no_status {
          draft_id = r.draft_id;
          restored = true;
          target = record no_target {
            account = string_of 37 r.account;
            chat = string_of 21 r.chat;
          };
        };
        attempt = 0;
      } in
      record { live = ground (arith, h.live, (apply-IsLive r fresh).live, (apply-IsLive r t).live) }

  take_frame-IsLive :
      (f : Frame) (s : Bool × Tracker L) → IsLive s.1 → IsLive (take_frame k flag q f s).1.1
  unfolding take_frame
  take_frame-IsLive f (any, t) h =
      let (ok, r, body) = decode f.body layout_send_state blank in
      record {
        live =
            ground
              (arith, h.live, (take_record-IsLive r (f.type == k.record_pending_send) t h).live);
      }

  take_payload-IsLive :
      (payload : List ℕ) (t : Tracker L) → IsLive t → IsLive (take_payload k flag q payload t).1
  unfolding take_payload
  take_payload-IsLive payload t h =
      for_records-keeps (λ s. IsLive s.1) (take_frame k flag q) take_frame-IsLive
        (loop_fuel (length payload)) (cursor_init (some payload) (length payload)) (false, t) h

  -- A call of the module, `tb_send_close` left out.
  abbrev pub call : Event → Tracker L → Tracker L
  call (started target draft_id again title preview) t =
      (start k flag q target draft_id again title preview t).1
  call checked t = (check k flag q t).1
  call (answered sequence r) t = completed k flag q sequence r t
  call (told_of r restored) t = (take_record k flag q r restored t).1
  call (received payload) t = (take_payload k flag q payload t).1
  call (forgotten draft_id) t = forget draft_id t

  -- The tracker after a list of calls, the last one first.
  abbrev pub after : L → List Event → Tracker L
  after requests [] = init requests
  after requests (e ∷ es) = call e (after requests es)

  after_calls-IsLive : (requests : L) (es : List Event) → IsLive (after requests es)
  unfolding init
  after_calls-IsLive requests [] = record { live = refl }
  after_calls-IsLive requests (started target draft_id again title preview ∷ es) =
      start-IsLive target draft_id again title preview (after requests es)
        (after_calls-IsLive requests es)
  after_calls-IsLive requests (checked ∷ es) =
      check-IsLive (after requests es) (after_calls-IsLive requests es)
  after_calls-IsLive requests (answered sequence r ∷ es) =
      completed-IsLive sequence r (after requests es) (after_calls-IsLive requests es)
  after_calls-IsLive requests (told_of r restored ∷ es) =
      take_record-IsLive r restored (after requests es) (after_calls-IsLive requests es)
  after_calls-IsLive requests (received payload ∷ es) =
      take_payload-IsLive payload (after requests es) (after_calls-IsLive requests es)
  after_calls-IsLive requests (forgotten draft_id ∷ es) =
      forget-IsLive draft_id (after requests es) (after_calls-IsLive requests es)

  -- After any calls but `tb_send_close`, a message that is shown as being submitted waits for the answer to a
  -- request; and any answer to the request that is awaited that is no cancellation, a timeout, an
  -- unreachable phone and a refusal among them, leaves no request awaited and no message shown as being
  -- submitted.
  pub after-IsLive :
      (requests : L) (es : List Event) (r : Response)
      → is_cancelled r.outcome ≡ false
      → IsLive (after requests es)
        × Moved (completed k flag q (after requests es).pending r (after requests es))
  after-IsLive requests es r n =
      let h = after_calls-IsLive requests es in (h, completed-Moved r (after requests es) n h)
