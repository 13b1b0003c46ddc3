-- ===== src/Session/Reached.antt =====
-- Every state that a session reaches: events are the calls of session.h and the answers, in any order.
use tele_bezel.Base.{
  ℕ, ◌≡◌, refl, sym, ap, subst, ◌∙◌, inl, inr, Bool, true, false, not, ◌&&◌, ◌||◌, Option, none,
  some, Option-cases, List, [], ◌∷◌, ◌==◌, arith, if◌then◌else◌, length, ◌<◌, ◌≤◌, Bool-cases,
}
use tele_bezel.Base.Int.{ℤ, pos}
use tele_bezel.Codec.{Frame}
use tele_bezel.Requests.Layer.{Response, no_args}
use tele_bezel.Errors.{is_code, error_none, no_response, error_from_outcome, error_from_response}
use tele_bezel.Sending.{Requests}
use tele_bezel.Sending.Calls.{is_response, is_cancelled}
use tele_bezel.Session.{Codes, Session, is_idle, is_hello, max_accounts}
use tele_bezel.Session.Bootstrap.{cleared, with_prefs, with_account, take_frame, parse}
use tele_bezel.Session.Calls.{
  announce, settle, submit, dropped, bootstrap, ended_early, taken, completed, init, start, retry,
  ready, refresh, stop, is_protocol, chunk_order,
}
use tele_bezel.Session.Sound.{
  IsStored, IsSound, parse-IsStored, parse-kept, AreAccounts, IsStored-if,
}

-- `readied` has what `tb_requests_response` does.
pub data Event (L : Type 0) : Type 0 where
  starts : Bool → Event L
  retries refreshes stops : Event L
  readied : (L → ℕ → ℕ → L × Option Response) → ℕ → Event L
  answers : ℕ → Response → Event L

module _ {L : Type 0} (k : Codes) (q : Requests L) where
  unfoldable pub after : Event L → Session L → Session L
  after (starts transport_ready) s = start k q transport_ready s
  after retries s = retry k q s
  after refreshes s = refresh k q s
  after stops s = stop k q s
  after (readied respond sequence) s = ready k q respond sequence s
  after (answers sequence r) s = completed k q sequence r s

  unfoldable pub run : List (Event L) → Session L → Session L
  run [] s = s
  run (e ∷ es) s = run es (after e s)

  IsSound-if : (b : Bool) (x y : Session L) → IsSound x → IsSound y → IsSound (if b then x else y)
  IsSound-if true x y v w = v
  IsSound-if false x y v w = w

  -- The parts that the calls of ports and of the layer leave alone.
  same :
      (s t : Session L)
      → t.accounts ≡ s.accounts
      → t.default_account ≡ s.default_account
      → t.host ≡ s.host
      → IsStored s
      → IsStored t
  same s t a d h v = record {
    count = subst (λ x. length x ≤ max_accounts) (sym a) v.count;
    accounts = subst AreAccounts (sym a) v.accounts;
    default_account = subst (λ x. length x < 37) (sym d) v.default_account;
    host = subst (λ x. length x < 65) (sym h) v.host;
  }

  settle-IsSound : (error : ℤ) (s : Session L) → IsStored s → IsSound (settle k q error s)
  unfolding settle announce
  settle-IsSound error s v = record { stored = same s _ refl refl refl v; busy = refl }

  sent-IsSound :
      (error : ℤ) (s : Session L)
      → is_idle s.phase ≡ false
      → IsStored s
      → IsSound (if s.pending == 0 && not (is_idle s.phase) then settle k q error s else s)
  sent-IsSound error s p v = elim (Bool-cases (s.pending == 0)) [
    | inl e ↦ rw e (rw p (settle-IsSound error s v))
    | inr e ↦ rw e (record { stored = v; busy = p ∙ sym e })
  ]

  submit-IsSound :
      (kind limit attempts : ℕ) (resend : Bool) (s : Session L)
      → is_idle s.phase ≡ false
      → IsStored s
      → IsSound (submit k q kind limit attempts resend s)
  unfolding submit
  submit-IsSound kind limit attempts resend s p v =
      sent-IsSound
        (error_from_outcome k.results (
          q.immediate
            (q.submit s.requests (record no_args { kind = kind }) limit attempts resend).0))
        _ p (same s _ refl refl refl v)

  bootstrap-IsSound : (s : Session L) → IsStored s → IsSound (bootstrap k q s)
  unfolding bootstrap announce dropped
  bootstrap-IsSound s v =
      submit-IsSound k.request_bootstrap 25000 2 false _ refl (same s _ refl refl refl v)

  ended_early-IsStored :
      (sequence : ℕ) (r : Response) (s : Session L)
      → IsStored s
      → IsStored (ended_early k q sequence r s)
  ended_early-IsStored sequence r s v = IsStored-if k r.final s _ v (same s _ refl refl refl v)

  -- The phase and the request of the session that is given.
  Waits : Session L → Session L → Type 0
  Waits s t = (t.phase ≡ s.phase) × (t.pending ≡ s.pending)

  take_frame-Waits :
      (s : Session L) (f : Frame) (t : Session L) → Waits s t → Waits s (take_frame k f t).1
  unfolding take_frame with_prefs with_account Waits
  take_frame-Waits s f t (p, n) = (ground arith, ground arith)

  -- `parse` takes no part in the request.
  parse-Waits : (r : Response) (s : Session L) → Waits s (parse k r s).1
  unfolding Waits cleared
  parse-Waits r s = parse-kept k (Waits s) (take_frame-Waits s) r s (ground arith, ground arith)

  waits :
      (s t : Session L)
      → Waits s t
      → is_idle s.phase ≡ (s.pending == 0)
      → is_idle t.phase ≡ (t.pending == 0)
  unfolding Waits
  waits s t (p, n) b = ap is_idle p ∙ b ∙ sym (ap (λ m. m == 0) n)

  taken-IsSound :
      (sequence : ℕ) (r : Response) (ok : Bool) (s : Session L)
      → IsSound s
      → IsSound (taken k q sequence r ok s)
  unfolding taken
  taken-IsSound sequence r ok s v =
      let w : IsStored (ended_early k q sequence r s) =
        ended_early-IsStored sequence r s v.stored in
      IsSound-if (not ok) _ _
        (settle-IsSound (pos k.results.protocol_error)
          (record (ended_early k q sequence r s) { accounts = [] })
          (record {
            count = omega arith;
            accounts = tt;
            default_account = w.default_account;
            host = w.host;
          }))
        (IsSound-if r.final _ s
          (settle-IsSound (pos error_none) _ (same s _ refl refl refl v.stored)) v)

  completed-IsSound :
      (sequence : ℕ) (r : Response) (s : Session L)
      → IsSound s
      → IsSound (completed k q sequence r s)
  unfolding completed
  completed-IsSound sequence r s v =
      let s' : Session L = record s {
        failure = if is_protocol r.outcome then some chunk_order else none;
      } in
      let v' : IsStored s' = same s s' refl refl refl v.stored in
      let w : Waits s' (parse k r s').1 = parse-Waits r s' in
      IsSound-if (not (sequence == s.pending) || is_cancelled r.outcome) _ _ v (
        IsSound-if (is_hello s.phase) _ _
          (IsSound-if (is_response r.outcome) _ _
            (bootstrap-IsSound _ (same s _ refl refl refl v.stored))
            (settle-IsSound (error_from_response k.results r) _ (same s _ refl refl refl v.stored)))
          (IsSound-if (not (is_response r.outcome) || not (is_code r.result k.results.ok)) _ _
            (settle-IsSound (error_from_response k.results r) _ (
              same (ended_early k q sequence r s') _ refl refl refl
                (ended_early-IsStored sequence r s' v')))
            (taken-IsSound sequence r (parse k r s').0 (parse k r s').1
              (record { stored = parse-IsStored k r s' v'; busy = waits s' _ w v.busy }))))

  start-IsSound :
      (transport_ready : Bool) (s : Session L) → IsStored s → IsSound (start k q transport_ready s)
  unfolding start announce dropped
  start-IsSound transport_ready s v =
      let s' : Session L = record (dropped k q s) { loaded = false; accounts = [] } in
      let w : IsStored s' = record {
        count = omega arith;
        accounts = tt;
        default_account = v.default_account;
        host = v.host;
      } in
      IsSound-if (not transport_ready) _ _ (settle-IsSound (pos no_response) s' w)
        (submit-IsSound k.request_hello 1500 3 true _ refl (same s' _ refl refl refl w))

  ready-IsSound :
      (respond : L → ℕ → ℕ → L × Option Response) (sequence : ℕ) (s : Session L)
      → IsSound s
      → IsSound (ready k q respond sequence s)
  unfolding ready
  ready-IsSound respond sequence s v =
      let s' : Session L = record s { requests = (respond s.requests sequence k.results.ok).0 } in
      let v' : IsSound s' = record { stored = same s s' refl refl refl v.stored; busy = v.busy } in
      IsSound-if (is_hello s.phase && sequence == s.pending) _ _
        (elim (Option-cases (respond s.requests sequence k.results.ok).1) [
          | inl e ↦ rw e v'
          | inr (r, e) ↦ rw e (completed-IsSound sequence r s' v')
        ])
        (IsSound-if (is_idle s.phase && not s.loaded) _ _ (bootstrap-IsSound s v.stored) v)

  after-IsSound : (e : Event L) (s : Session L) → IsSound s → IsSound (after e s)
  unfolding after retry refresh stop dropped
  after-IsSound (starts transport_ready) s v = start-IsSound transport_ready s v.stored
  after-IsSound retries s v = IsSound-if (is_idle s.phase) _ _ (start-IsSound true s v.stored) v
  after-IsSound refreshes s v = IsSound-if (is_hello s.phase) _ _ v (
      bootstrap-IsSound _ (record {
        count = omega arith;
        accounts = tt;
        default_account = v.stored.default_account;
        host = v.stored.host;
      }))
  after-IsSound stops s v = record { stored = same s _ refl refl refl v.stored; busy = refl }
  after-IsSound (readied respond sequence) s v = ready-IsSound respond sequence s v
  after-IsSound (answers sequence r) s v = completed-IsSound sequence r s v

  run-IsSound_from : (es : List (Event L)) (s : Session L) → IsSound s → IsSound (run es s)
  unfolding run
  run-IsSound_from [] s v = v
  run-IsSound_from (e ∷ es) s v = run-IsSound_from es (after e s) (after-IsSound e s v)

  -- The session after the events.
  unfoldable pub reached : L → List (Event L) → Session L
  reached requests es = run es (init k q requests)

  -- From `tb_session_init` on, after any calls and answers, there are at most eight accounts, the strings
  -- that are held fit their arrays with a terminator, and the session is idle just when it awaits no answer.
  pub reached-IsSound : (requests : L) (es : List (Event L)) → IsSound (reached requests es)
  unfolding reached init
  reached-IsSound requests es = run-IsSound_from es _ (record {
    stored = record {
      count = omega arith;
      accounts = tt;
      default_account = omega arith;
      host = omega arith;
    };
    busy = refl;
  })
