-- ===== src/History/Calls.antt =====
-- The functions of history.h, the submission of a request and its answers. The request layer is the
-- interface of Sending: a submit or a cancel calls no callback that acts on the history (a cancelled
-- answer is dropped by `completed`).
use tele_bezel.Base.{
  ℕ, ◌+◌, Bool, true, false, not, ◌&&◌, ◌||◌, Option, none, some, List, [], ◌∷◌, leb, ◌==◌,
  if◌then◌else◌, take, sub32,
}
use tele_bezel.Base.Int.{ℤ, pos}
use tele_bezel.Codec.{Span}
use tele_bezel.Text.{Budget}
use tele_bezel.Requests.Layer.{RequestArgs, Response, no_args}
use tele_bezel.Errors.{
  is_code, error_from_outcome, error_from_response, is_connection_level, is_account_level,
}
use tele_bezel.Sending.{Requests, same_bytes}
use tele_bezel.Sending.Calls.{is_response, is_cancelled}
use tele_bezel.History.{
  Codes, Config, Message, History, cancel, Top, more, loading, failed, waiting, start, unknown,
  Operation, no_operation, first, refresh, older, is_none, is_first, is_older, is_loading,
  is_failed, is_waiting,
}
use tele_bezel.History.Staging.{clear_items, clear_staging, parse}
use tele_bezel.History.Pages.{due, at, called, announce, arm, schedule_periodic, finish}

-- `TB_ERROR_OUT_OF_MEMORY`
abbrev pub out_of_memory : ℕ
out_of_memory = 102

abbrev pub is_open : List ℕ → Bool
is_open [] = false
is_open (_ ∷ _) = true

-- `tb_history_find`, from the index `i` on
unfoldable pub find_from : List Message → List ℕ → ℕ → Option ℕ
find_from [] id i = none
find_from (m ∷ ms) id i = if same_bytes m.id id then some i else find_from ms id (i + 1)

-- The three timers when a request is under way.
abbrev pub postponed : Bool → ℕ → ℕ → ℕ
postponed is_due current time = if is_due then at current 1000 else time

module _ {L : Type 0} (k : Codes) (c : Config) (heap : Budget → Span → Bool) (q : Requests L) where
  abbrev pub dropped : History L → History L
  dropped h =
      if h.pending == 0
      then h
      else record h { pending = 0; requests = q.cancel h.requests h.pending }

  -- The end of `submit` where the layer takes no request.
  unfoldable pub not_sent : Operation → History L → History L
  not_sent op h =
      let error = error_from_outcome k.results (q.immediate h.requests) in
      let h' = record h { op = no_operation } in
      if not h.loaded
      then record h' { error = error }
      else if is_older op
      then record h' { top = failed; top_error = error }
      else record h' { refresh_error = error }

  abbrev pub args_of : ℕ → History L → RequestArgs
  args_of page_op h = record no_args {
    kind = k.request_history;
    page_op = page_op;
    page_limit = c.page_limit;
    text_limit = c.text_limit;
    account = take 36 h.account;
    chat = take 20 h.chat;
  }

  -- `submit`
  unfoldable pub submit : Operation → ℕ → Bool → History L → History L
  submit op page_op silent h =
      let h1 = dropped h in
      let h2 = record h1 {
        store = clear_staging h1.store;
        op = op;
        op_page = page_op;
        refreshing_silently = silent;
        top = if is_older op then loading else h1.top;
        error = if is_first op then pos 0 else h1.error;
      } in
      let (requests, sequence) = q.submit h2.requests (args_of page_op h) c.timeout 2 false in
      let h3 = record h2 { requests = requests; pending = sequence } in
      announce k c (if sequence == 0 then not_sent op h3 else h3)

  -- The errors that the whole history is in.
  abbrev pub is_total : ℤ → Bool
  is_total error =
      is_account_level k.results error
      || is_connection_level k.results error
      || is_code error k.chat_not_found

  -- Where `fail` puts the error of the operation `op`.
  unfoldable pub with_error : ℤ → Operation → History L → History L
  with_error error op h =
      if not h.loaded || is_total error
      then record h { error = error }
      else if is_older op
      then record h { top = failed; top_error = error }
      else record h { refresh_error = error }

  unfoldable pub with_top : ℤ → Operation → History L → History L
  with_top error op h =
      let h' =
        if h.loaded && is_loading h.top then record h { top = failed; top_error = error } else h in
      if h'.loaded && (is_code error k.cursor_lost || is_first op) && is_failed h'.top
      then record h' { top_op = k.page_first }
      else h'

  -- `fail`
  unfoldable pub fail : ℕ → ℤ → ℕ → History L → History L
  fail current error retry_after h =
      let h' = record h {
        pending = 0;
        op = no_operation;
        store = clear_staging h.store;
        retry_after = retry_after;
      } in
      if is_code error k.cursor_lost && not h.resynced
      then submit first k.page_first h.loaded
          (record h' { resynced = true; followups = 0; followup_chain = true; rechecks = 0 })
      else announce k c (
          arm k c current
            (schedule_periodic k c current (with_top error h.op (with_error error h.op h'))))

  -- An answer that ends the request early: the rest of it is cancelled.
  abbrev pub ended_early : ℕ → Response → History L → History L
  ended_early sequence r h =
      if r.final then h else record h { pending = 0; requests = q.cancel h.requests sequence }

  -- `completed`, once the chunk is parsed
  unfoldable pub parsed_chunk : ℕ → ℕ → Response → Bool → History L → History L
  parsed_chunk current sequence r ok h =
      if not ok
      then fail current (pos k.results.protocol_error) 0 (ended_early sequence r h)
      else if not r.final
      then h
      else if h.store.staging_invalid
      then fail current (pos out_of_memory) 0 (record h { store = clear_staging h.store })
      else finish k c current r.flags h

  -- `completed`
  unfoldable pub completed : ℕ → ℕ → Response → History L → History L
  completed current sequence r h =
      let (ok, s) = parse k c heap r.payload h.store in
      if not (sequence == h.pending) || is_cancelled r.outcome
      then h
      else if not (is_response r.outcome && is_code r.result k.results.ok)
      then fail current (error_from_response k.results r) r.retry_after (ended_early sequence r h)
      else parsed_chunk current sequence r ok (record h { store = s })

  -- `tb_history_init`, with the two arrays
  unfoldable pub init : L → History L
  init requests = record {
    requests = requests;
    account = [];
    chat = [];
    chat_type = 0;
    saved = false;
    store = record {
      items = [];
      staging = [];
      staging_invalid = false;
      budget = record { used = 0; limit = c.text_budget };
      truncated = false;
    };
    top = more;
    top_op = 0;
    op = no_operation;
    op_page = 0;
    pending = 0;
    loaded = false;
    connection_not_ready = false;
    active = false;
    refreshing_silently = false;
    resynced = false;
    error = pos 0;
    top_error = pos 0;
    refresh_error = pos 0;
    retry_after = 0;
    followups = 0;
    followup_chain = false;
    rechecks = 0;
    followup_due = 0;
    recheck_due = 0;
    periodic_due = 0;
    refreshed_at = 0;
    revision = 0;
    log = [];
  }

  -- `tb_history_is`
  unfoldable pub is_chat : List ℕ → List ℕ → History L → Bool
  is_chat account chat h = h.loaded && same_bytes h.account account && same_bytes h.chat chat

  -- `tb_history_close`
  unfoldable pub close : History L → History L
  close h =
      let h' = dropped h in
      called k c cancel (record h' {
        store = clear_staging h'.store;
        op = no_operation;
        active = false;
        followup_due = 0;
        recheck_due = 0;
        periodic_due = 0;
      })

  -- The fields that `tb_history_open` sets for every chat.
  abbrev pub opening : ℕ → Bool → History L → History L
  opening chat_type saved h = record (close h) {
    active = true;
    chat_type = chat_type;
    saved = saved;
    followups = 0;
    followup_chain = true;
    rechecks = 0;
    resynced = false;
    retry_after = 0;
  }

  -- `tb_history_open`
  unfoldable pub open_chat : List ℕ → List ℕ → ℕ → Bool → History L → History L
  open_chat account chat chat_type saved h =
      let h' = opening chat_type saved h in
      if is_chat account chat h && not h.store.truncated
      then submit first k.page_first true h'
      else submit first k.page_first false (record h' {
        store = record (clear_items h'.store) { truncated = false };
        account = take 36 account;
        chat = take 20 chat;
        loaded = false;
        top = loading;
        error = pos 0;
        top_error = pos 0;
        refresh_error = pos 0;
      })

  -- The page that `tb_history_load_older` asks for again.
  unfoldable pub load_again : History L → History L
  load_again h =
      let h' = record h { recheck_due = 0 } in
      if h.top_op == k.page_first
      then submit first k.page_first true
          (record h' { resynced = false; followups = 0; followup_chain = true })
      else if h.top_op == k.page_refresh
      then submit refresh k.page_refresh false (record h' { followups = 0; followup_chain = true })
      else submit older h.top_op false
          (record h' { rechecks = if is_waiting h.top then h.rechecks else 0 })

  unfoldable pub load_top : Top → History L → History L
  load_top more h = submit older k.page_next false h
  load_top failed h = load_again h
  load_top waiting h = load_again h
  load_top start h = load_again h
  load_top unknown h = load_again h
  load_top loading h = h

  -- `tb_history_load_older`
  unfoldable pub load_older : History L → History L
  load_older h = if not h.loaded || not (is_none h.op) then h else load_top h.top h

  -- `tb_history_refresh`
  unfoldable pub refresh_now : History L → History L
  refresh_now h =
      let h' = record h { followups = 0; followup_chain = true } in
      if not (is_none h.op) || not (is_open h.account)
      then h
      else if not h.loaded || h.store.truncated
      then submit first k.page_first h.loaded (record h' { resynced = false })
      else submit refresh k.page_refresh false h'

  -- `tb_history_retry`
  unfoldable pub retry : History L → History L
  retry h =
      if not (is_none h.op) || not (is_open h.account)
      then h
      else if not h.loaded
      then submit first k.page_first false
          (record h { error = pos 0; resynced = false; followups = 0; followup_chain = true })
      else if is_failed h.top
      then load_older h
      else refresh_now h

  -- `tb_history_set_active`
  unfoldable pub set_active : ℕ → Bool → History L → History L
  set_active current active h =
      let h' = record h { active = active } in
      let stale = leb c.refresh_interval (sub32 current h.refreshed_at) in
      if not (is_open h.account)
      then h
      else if not active
      then arm k c current (record h' { periodic_due = 0; followup_due = 0 })
      else if h.loaded && is_none h.op && not h.store.truncated && stale
      then refresh_now h'
      else arm k c current (schedule_periodic k c current h')

  -- The part of `tb_history_timer` for a timer that is due while no request is under way.
  unfoldable pub fire : ℕ → Bool → Bool → Bool → History L → History L
  fire current followup periodic recheck h =
      let alone = periodic && not followup in
      let h' = record h {
        followup_due = 0;
        periodic_due = 0;
        followups = if alone then 0 else h.followups;
        followup_chain = if alone then false else h.followup_chain;
      } in
      if recheck
      then submit older h.top_op false (record h { recheck_due = 0 })
      else if not h.active
      then arm k c current h'
      else submit refresh k.page_refresh true h'

  -- `tb_history_timer`
  unfoldable pub timer : ℕ → History L → History L
  timer current h =
      let followup = due h.followup_due current in
      let periodic = due h.periodic_due current in
      let recheck = due h.recheck_due current in
      if not followup && not periodic && not recheck
      then arm k c current h
      else if not (is_none h.op)
      then arm k c current (record h {
        followup_due = postponed followup current h.followup_due;
        periodic_due = postponed periodic current h.periodic_due;
        recheck_due = postponed recheck current h.recheck_due;
      })
      else fire current followup periodic recheck h
