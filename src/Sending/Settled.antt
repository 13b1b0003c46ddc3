-- ===== src/Sending/Settled.antt =====
-- What is settled: late news of it does not make it pending, but a lost answer to a request
-- makes it unknown, and then it can be sent again.
use tele_bezel.Base.{
  ℕ, ◌+◌, ◌%◌, ◌^◌, ◌≡◌, refl, Bool, true, false, not, ◌||◌, ◌==◌, List, take, arith, Bool-cases,
  inl, inr,
}
use tele_bezel.Base.Int.{ℤ}
use tele_bezel.Errors.{error_of, error_from_response}
use tele_bezel.Requests.Layer.{
  Outcome, Response, no_args, response, timeout, unreachable, cancelled, protocol,
}
use tele_bezel.Codec.Layouts.{SendStateRecord}
use tele_bezel.Sending.{
  Protocol, Flags, Requests, Tracker, Target, is_settled, is_empty, busy, notify, sent, unknown,
}
use tele_bezel.Sending.Calls.{
  updated, apply, take_record, start, restart, submit, is_response, is_cancelled, is_unknown,
  after_error, refused, completed,
}

module _ {L : Type 0} (k : Protocol) (flag : Flags) (q : Requests L) where
  apply-settled :
      (r : SendStateRecord) (t : Tracker L)
      → is_settled t.status.phase ≡ true
      → (is_settled (apply k flag q r t).status.phase ≡ true)
        × ((apply k flag q r t).status.draft_id ≡ t.status.draft_id)
  unfolding apply updated notify
  apply-settled r t h = ground (arith, h)

  -- News of a draft that is settled, as sent or as failed, leaves it settled: `tb_send_record` for the
  -- same draft changes a settled phase to a settled one only.
  pub take_record-settled :
      (r : SendStateRecord) (restored : Bool) (t : Tracker L)
      → is_settled t.status.phase ≡ true
      → r.draft_id ≡ t.status.draft_id
      → is_settled (take_record k flag q r restored t).1.status.phase ≡ true
  unfolding take_record
  take_record-settled r restored t h e = ground (arith, h, apply-settled r t h)

  -- The tracker waits for the answer to a request to send this draft to this target once more.
  pub record IsResent (target : Target) (draft_id : ℕ) (t t' : Tracker L) : Type 0 where
    pub request :
        (t'.requests, t'.pending)
        ≡ q.submit t.requests
            (record no_args {
              kind = k.request_send;
              draft_id = draft_id;
              attempt = (t.attempt + 1) % 2 ^ 8;
              account = take 36 target.account;
              chat = take 20 target.chat;
              message = take 20 target.reply;
            })
            25000
            3
            (k.request_send == k.request_send)

  abbrev pub is_lost : Outcome → Bool
  is_lost timeout = true
  is_lost unreachable = true
  is_lost _ = false

  -- The tracker with a draft of which it is not known whether it was sent.
  record IsLost (t t' : Tracker L) : Type 0 where
    pub phase_unknown : t'.status.phase ≡ unknown
    pub draft_kept : t'.status.draft_id ≡ t.status.draft_id
    pub attempt_kept : t'.attempt ≡ t.attempt

  is_unknown_lost :
      (o : Outcome) (result : ℤ)
      → is_lost o ≡ true
      → is_unknown k flag q (error_of k.results o result) ≡ true
  unfolding error_of
  is_unknown_lost timeout result e = refl
  is_unknown_lost unreachable result e = refl
  is_unknown_lost response result e = absurd (ground arith)
  is_unknown_lost cancelled result e = absurd (ground arith)
  is_unknown_lost protocol result e = absurd (ground arith)

  is_lost-outcome :
      (o : Outcome) → is_lost o ≡ true → (is_response o ≡ false) × (is_cancelled o ≡ false)
  is_lost-outcome timeout e = (refl, refl)
  is_lost-outcome unreachable e = (refl, refl)
  is_lost-outcome response e = absurd (ground arith)
  is_lost-outcome cancelled e = absurd (ground arith)
  is_lost-outcome protocol e = absurd (ground arith)

  refused-IsLost :
      (sequence : ℕ) (r : Response) (t : Tracker L)
      → is_lost r.outcome ≡ true
      → IsLost t (refused k flag q sequence r t)
  unfolding refused after_error notify error_from_response
  refused-IsLost sequence r t e =
      let u = is_unknown_lost r.outcome r.result e in
      record {
        phase_unknown = ground (arith, u);
        draft_kept = ground (arith, u);
        attempt_kept = ground (arith, u);
      }

  completed-IsLost :
      (r : Response) (t : Tracker L)
      → is_lost r.outcome ≡ true
      → IsLost t (completed k flag q t.pending r t)
  unfolding completed
  completed-IsLost r t e =
      let (a, n) = is_lost-outcome r.outcome e in
      let own : (not (t.pending == t.pending) || is_cancelled r.outcome) ≡ false =
        ground (arith, n) in
      let h = refused-IsLost t.pending r (record t { pending = 0 }) e in
      rw (own, a)
        (record {
          phase_unknown = h.phase_unknown;
          draft_kept = h.draft_kept;
          attempt_kept = h.attempt_kept;
        })

  restart-request :
      (target : Target) (draft_id : ℕ) (title preview : List ℕ) (t : Tracker L)
      → IsResent target draft_id t
          (restart k flag q target draft_id title preview ((t.attempt + 1) % 2 ^ 8) t)
  unfolding restart submit notify
  restart-request target draft_id title preview t = record { request = ground arith }

  -- `tb_send_start` for a draft that is unknown, whose number is not 0.
  started-again :
      (target : Target) (draft_id : ℕ) (title preview : List ℕ) (t : Tracker L)
      → t.status.phase ≡ unknown
      → t.status.draft_id ≡ draft_id
      → (draft_id == 0) ≡ false
      → (is_empty target.account || is_empty target.chat) ≡ false
      → start k flag q target draft_id true title preview t
        ≡ (true, restart k flag q target draft_id title preview ((t.attempt + 1) % 2 ^ 8) t)
  unfolding start busy
  started-again target draft_id title preview t h s d e =
      let same : (t.status.draft_id == draft_id) ≡ true = ground (arith, s) in
      let known : (t.status.draft_id == 0) ≡ false = ground (arith, s, d) in
      elim (Bool-cases (flag.has_retryable t.status.flags)) [
        | inl b ↦ rw (h, known, d, e, same, b) refl
        | inr b ↦ rw (h, known, d, e, same, b) refl
      ]

  -- Where the answer to the awaited request times out or the phone cannot be reached, a draft that was
  -- sent meanwhile, whose number is not 0, is no longer settled; and `tb_send_start` for it with `again`, to
  -- a target with an account and a chat, then returns true and gives the request layer the request to send
  -- it, as the next attempt.
  pub lost_answer-IsResent :
      (target : Target) (title preview : List ℕ) (r : Response) (t : Tracker L)
      → t.status.phase ≡ sent
      → (t.status.draft_id == 0) ≡ false
      → (is_empty target.account || is_empty target.chat) ≡ false
      → is_lost r.outcome ≡ true
      → let t' = completed k flag q t.pending r t in
        let again = start k flag q target t.status.draft_id true title preview t' in
        (is_settled t.status.phase ≡ true)
        × (is_settled t'.status.phase ≡ false)
        × (again.0 ≡ true)
        × IsResent target t.status.draft_id t' again.1
  unfolding is_settled
  lost_answer-IsResent target title preview r t s d e l =
      let t' : Tracker L = completed k flag q t.pending r t in
      let h : IsLost t t' = completed-IsLost r t l in
      let run =
        started-again target t.status.draft_id title preview t' h.phase_unknown h.draft_kept d e in
      (
        rw s refl,
        rw h.phase_unknown refl,
        rw run refl,
        rw run (restart-request target t.status.draft_id title preview t'),
      )
