-- ===== src/Connection.antt =====
-- app/src/c/connection.c and connection.h: the state of an account's connection, which is polled while
-- it is not ready. The request layer is the interface of Sending; the calls of the ports are a log, the
-- last one first. The protocol's codes are in a file that the build generates, and are parameters.
pub mod Polling
use tele_bezel.Base.{
  ℕ, ◌+◌, ◌-◌, ◌*◌, ◌%◌, ◌^◌, Bool, true, false, not, ◌&&◌, ◌||◌, Option, none, some, List, [], ◌∷◌,
  ltb, ◌==◌, if◌then◌else◌, take, drop, length,
}
use tele_bezel.Codec.{Cursor, Frame, cursor_init, next, decode}
use tele_bezel.Codec.Layouts.{StatusRecord, layout_status}
use tele_bezel.Requests.Layer.{Outcome, RequestArgs, Response, no_args}
use tele_bezel.Errors.{is_code}
use tele_bezel.Sending.{Requests, is_empty}
use tele_bezel.Sending.Calls.{is_response, is_cancelled}

-- The constants of the protocol.
pub record Codes : Type 0 where
  pub connecting : ℕ
  pub updating : ℕ
  pub ready : ℕ
  pub record_status : ℕ
  pub request_events : ℕ
  pub result_ok : ℕ

-- `TbConnectionError`
pub data Error : Type 0 where
  no_error cannot_connect long_update : Error

-- A call of a port.
pub data Call : Type 0 where
  changed reload cancel : Call
  schedule : ℕ → Call
  records : List ℕ → Call

-- `TbConnection`
pub record Connection (L : Type 0) : Type 0 where
  pub requests : L
  pub timeout : ℕ
  pub account : List ℕ
  pub state : ℕ
  pub known : Bool
  pub proxy : Bool
  pub fresh : Bool
  pub active : Bool
  pub polling : Bool
  pub error : Error
  pub pending : ℕ
  pub window : ℕ
  pub delay : ℕ
  pub polls : ℕ
  pub log : List Call

abbrev pub blank_status : StatusRecord
blank_status = record { connection = 0; proxy = 0 }

module _ {L : Type 0} (k : Codes) (q : Requests L) where
  abbrev pub called : Call → Connection L → Connection L
  called c t = record t { log = c ∷ t.log }

  -- `limit_of`
  unfoldable pub limit_of : ℕ → ℕ
  limit_of state = if state == k.updating then 20000 else 14000

  -- `delay_of`
  unfoldable pub delay_of : ℕ → ℕ → ℕ
  delay_of state polls = if state == k.updating then 2500 + polls * 250 else 2000

  abbrev pub waits : Connection L → Bool
  waits c = c.polling && c.active && c.pending == 0

  -- `arm`; the window stays below 2 ^ 15 and the delay below 2 ^ 17, so the sum does not wrap.
  unfoldable pub arm : Connection L → Connection L
  arm c =
      let stopped = record (called cancel c) {
        polling = false;
        error = if c.state == k.updating then long_update else cannot_connect;
      } in
      if waits c
      then if ltb (limit_of c.state) (c.window + c.delay)
        then called changed stopped
        else called (schedule c.delay) (called cancel c)
      else called cancel c

  -- `enter`
  unfoldable pub enter : ℕ → Connection L → Connection L
  enter state c = arm (record c {
    state = state;
    known = true;
    fresh = false;
    error = no_error;
    window = 0;
    polls = 0;
    polling = not (state == k.ready);
    delay = delay_of state 0;
  })

  -- `proceed`
  unfoldable pub proceed : Connection L → Connection L
  proceed c = arm (record c { delay = delay_of c.state c.polls })

  abbrev pub is_same : ℕ → Connection L → Bool
  is_same state c = c.known && not c.fresh && state == c.state

  -- The part of `apply` after its first statement.
  unfoldable pub apply_state : ℕ → Bool → Bool → Connection L → Connection L
  apply_state state proxy polled c =
      let c' = record c { proxy = proxy } in
      let arrived = polled && c.known && not (c.state == k.ready) && state == k.ready in
      if is_same state c
      then called changed (if polled && c.polling then proceed c' else c')
      else if arrived
      then called reload (called changed (enter state c'))
      else called changed (enter state c')

  -- `apply`
  unfoldable pub apply : ℕ → Bool → Bool → Connection L → Connection L
  apply state proxy polled c =
      apply_state (if ltb k.ready state then k.connecting else state) proxy polled c

  -- The status that a response starts with, and the bytes after it.
  unfoldable pub status_of : List ℕ → Option (StatusRecord × List ℕ)
  status_of payload =
      let (found, cursor) = next (cursor_init (some payload) (length payload)) in
      elim found [
        | none ↦ none
        | some f ↦
            let (ok, status, body) = decode f.body layout_status blank_status in
            if f.type == k.record_status && ok
            then some (status, drop cursor.offset payload)
            else none
      ]

  -- The end of `completed` without a status.
  unfoldable pub failed : ℕ → Response → Connection L → Connection L
  failed sequence r c =
      let c' = if r.final then c else record c { requests = q.cancel c.requests sequence } in
      if c'.polling then proceed c' else c'

  abbrev pub rest_given : List ℕ → Connection L → Connection L
  rest_given rest c = if is_empty rest then c else called (records rest) c

  unfoldable pub received :
      ℕ → Response → Option (StatusRecord × List ℕ) → Connection L → Connection L
  received sequence r none c = failed sequence r c
  received sequence r (some found) c =
      apply found.0.connection (not (found.0.proxy == 0)) true (rest_given found.1 c)

  -- `completed`
  unfoldable pub completed : ℕ → Response → Connection L → Connection L
  completed sequence r c =
      let good = is_response r.outcome && is_code r.result k.result_ok in
      if not (sequence == c.pending) || is_cancelled r.outcome
      then c
      else received sequence r (if good then status_of r.payload else none)
          (record c { pending = 0 })

  -- `tb_connection_init`
  unfoldable pub init : L → ℕ → Connection L
  init requests timeout = record {
    requests = requests;
    timeout = timeout;
    account = [];
    state = k.connecting;
    known = false;
    proxy = false;
    fresh = false;
    active = false;
    polling = false;
    error = no_error;
    pending = 0;
    window = 0;
    delay = 0;
    polls = 0;
    log = [];
  }

  abbrev pub dropped : Connection L → Connection L
  dropped c =
      if c.pending == 0
      then c
      else record c { pending = 0; requests = q.cancel c.requests c.pending }

  -- `tb_connection_close`
  unfoldable pub close : Connection L → Connection L
  close c = record (called cancel (dropped c)) {
    account = [];
    state = k.connecting;
    known = false;
    proxy = false;
    fresh = false;
    active = false;
    polling = false;
    error = no_error;
    window = 0;
    delay = 0;
    polls = 0;
  }

  -- `tb_connection_open`
  unfoldable pub open_account : List ℕ → Connection L → Connection L
  open_account account c = record (close c) { account = take 36 account; active = c.active }

  -- `tb_connection_summary`
  unfoldable pub summary : ℕ → Bool → Connection L → Connection L
  summary state proxy c = if is_empty c.account then c else apply state proxy false c

  -- `tb_connection_refresh`
  unfoldable pub refresh : Connection L → Connection L
  refresh c =
      if is_empty c.account
      then c
      else called changed
          (record (called cancel (dropped c)) { fresh = true; polling = false; error = no_error })

  -- `tb_connection_set_active`
  unfoldable pub set_active : Bool → Connection L → Connection L
  set_active active c =
      let c' = record c { active = active } in if active then arm c' else called cancel c'

  -- The part of `tb_connection_timer` after its guard.
  unfoldable pub poll : Connection L → Connection L
  poll c =
      let args = record no_args { kind = k.request_events; account = take 36 c.account } in
      let (requests, sequence) = q.submit c.requests args c.timeout 1 false in
      let c' = record c {
        window = c.window + c.delay;
        polls = (c.polls + 1) % 2 ^ 8;
        requests = requests;
        pending = sequence;
      } in
      if sequence == 0 then proceed c' else c'

  -- `tb_connection_timer`
  unfoldable pub timer : Connection L → Connection L
  timer c = if not (waits c) || is_empty c.account then c else poll c
