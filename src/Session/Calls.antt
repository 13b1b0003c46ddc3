-- ===== src/Session/Calls.antt =====
-- The functions of session.h and the answers of the request layer. As for the other clients of the
-- layer, a submit or a cancel calls no callback that acts on the session.
use tele_bezel.Base.{
  ℕ, ◌+◌, Bool, true, false, not, ◌&&◌, ◌||◌, Option, none, some, List, [], ◌∷◌, ◌==◌,
  if◌then◌else◌, add32,
}
use tele_bezel.Base.Int.{ℤ, pos}
use tele_bezel.Requests.Layer.{
  Outcome, Response, no_args, response, timeout, unreachable, cancelled, protocol,
}
use tele_bezel.Errors.{is_code, error_none, no_response, error_from_outcome, error_from_response}
use tele_bezel.Sending.{Requests, same_bytes}
use tele_bezel.Sending.Calls.{is_response, is_cancelled}
use tele_bezel.Session.{
  Codes, Session, Account, idle, hello, bootstrapping, is_idle, is_hello, changed,
}
use tele_bezel.Session.Bootstrap.{parse}

-- The text that `failure` shows for a chunk out of order.
abbrev pub chunk_order : List ℕ
chunk_order = b'c' ∷ b'h' ∷ b'u' ∷ b'n' ∷ b'k' ∷ b' ' ∷ b'o' ∷ b'r' ∷ b'd' ∷ b'e' ∷ b'r' ∷ []

abbrev pub is_protocol : Outcome → Bool
is_protocol protocol = true
is_protocol response = false
is_protocol timeout = false
is_protocol unreachable = false
is_protocol cancelled = false

module _ {L : Type 0} (k : Codes) (q : Requests L) where
  unfoldable pub announce : Session L → Session L
  announce s = record s { log = changed ∷ s.log }

  -- `settle`
  unfoldable pub settle : ℤ → Session L → Session L
  settle error s = announce (record s { phase = idle; pending = 0; error = error })

  -- `submit`
  unfoldable pub submit : ℕ → ℕ → ℕ → Bool → Session L → Session L
  submit kind limit attempts resend s =
      let (requests, sequence) =
        q.submit s.requests (record no_args { kind = kind }) limit attempts resend in
      let s' = record s { requests = requests; pending = sequence } in
      if sequence == 0 && not (is_idle s.phase)
      then settle (error_from_outcome k.results (q.immediate requests)) s'
      else s'

  -- `if (session->pending) tb_requests_cancel(...)`, and the request is forgotten.
  unfoldable pub dropped : Session L → Session L
  dropped s = record s {
    pending = 0;
    requests = if s.pending == 0 then s.requests else q.cancel s.requests s.pending;
  }

  -- `bootstrap`
  unfoldable pub bootstrap : Session L → Session L
  bootstrap s =
      submit k.request_bootstrap 25000 2 false
        (announce (record (dropped s) { phase = bootstrapping; error = pos error_none }))

  -- `if (!response->final) tb_requests_cancel(...)`
  abbrev pub ended_early : ℕ → Response → Session L → Session L
  ended_early sequence r s =
      if r.final then s else record s { requests = q.cancel s.requests sequence }

  -- The end of `completed`, once a chunk of the bootstrap is parsed.
  unfoldable pub taken : ℕ → Response → Bool → Session L → Session L
  taken sequence r ok s =
      if not ok
      then settle (pos k.results.protocol_error)
          (record (ended_early sequence r s) { accounts = [] })
      else if r.final
      then settle (pos error_none) (record s { loaded = true; generation = add32 s.generation 1 })
      else s

  -- `completed`
  unfoldable pub completed : ℕ → Response → Session L → Session L
  completed sequence r s =
      let s' = record s { failure = if is_protocol r.outcome then some chunk_order else none } in
      let (ok, s'') = parse k r s' in
      if not (sequence == s.pending) || is_cancelled r.outcome
      then s
      else if is_hello s.phase
      then if is_response r.outcome
        then bootstrap (record s { pending = 0 })
        else settle (error_from_response k.results r) (record s { pending = 0 })
      else if not (is_response r.outcome) || not (is_code r.result k.results.ok)
      then settle (error_from_response k.results r)
          (record (ended_early sequence r s') { retry_after = r.retry_after })
      else taken sequence r ok s''

  -- `tb_session_init`
  unfoldable pub init : L → Session L
  init requests = record {
    requests = requests;
    phase = idle;
    pending = 0;
    error = pos 0;
    retry_after = 0;
    loaded = false;
    generation = 0;
    accounts = [];
    default_account = [];
    chat_list = 0;
    show_archive = false;
    unread_mode = 0;
    photo_mode = 0;
    host = [];
    failure = none;
    log = [];
  }

  -- `tb_session_start`
  unfoldable pub start : Bool → Session L → Session L
  start transport_ready s =
      let s' = record (dropped s) { loaded = false; accounts = [] } in
      if not transport_ready
      then settle (pos no_response) s'
      else submit k.request_hello 1500 3 true
          (announce (record s' { phase = hello; error = pos error_none }))

  -- `tb_session_retry`
  unfoldable pub retry : Session L → Session L
  retry s = if is_idle s.phase then start true s else s

  -- `tb_session_ready`. `respond` is `tb_requests_response`: the layer afterwards, and the answer that it
  -- calls back with, where it knows the request. The callback is all that it does to the session.
  unfoldable pub ready : (L → ℕ → ℕ → L × Option Response) → ℕ → Session L → Session L
  ready respond sequence s =
      let (requests, answer) = respond s.requests sequence k.results.ok in
      let s' = record s { requests = requests } in
      if is_hello s.phase && sequence == s.pending
      then elim answer [ none ↦ s' | some r ↦ completed sequence r s' ]
      else if is_idle s.phase && not s.loaded
      then bootstrap s
      else s

  -- `tb_session_refresh`
  unfoldable pub refresh : Session L → Session L
  refresh s = if is_hello s.phase then s else bootstrap (record s { loaded = false; accounts = [] })

  -- `tb_session_stop`
  unfoldable pub stop : Session L → Session L
  stop s = record (dropped s) { phase = idle }

  -- `tb_session_busy`
  unfoldable pub busy : Session L → Bool
  busy s = not (is_idle s.phase)

-- `tb_session_find`, from the index `i` on
unfoldable pub find_from : List Account → List ℕ → ℕ → Option ℕ
find_from [] account i = none
find_from (a ∷ as') account i =
    if same_bytes a.id account then some i else find_from as' account (i + 1)
