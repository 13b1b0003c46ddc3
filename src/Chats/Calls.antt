-- ===== src/Chats/Calls.antt =====
-- The functions of chats.h, the submission of a request and its answers. As for the other clients of
-- the layer, a submit or a cancel calls no callback that acts on the list. `current` is the clock.
use tele_bezel.Base.{
  ℕ, ◌+◌, Bool, true, false, not, ◌&&◌, ◌||◌, Option, none, some, List, [], ◌∷◌, ltb, leb, ◌==◌,
  if◌then◌else◌, length, take, add32, sub32,
}
use tele_bezel.Base.Int.{ℤ, pos}
use tele_bezel.Codec.{Span}
use tele_bezel.Text.{Budget}
use tele_bezel.Requests.Layer.{Response, RequestArgs, no_args}
use tele_bezel.Errors.{is_code, error_none, error_from_outcome, error_from_response}
use tele_bezel.Sending.{Requests, same_bytes}
use tele_bezel.Sending.Calls.{is_response, is_cancelled}
use tele_bezel.Chats.{
  Codes, Config, Chat, Store, Chats, Load, idle, first, more, refresh, is_idle, is_more, Tail,
  has_next, unknown, end_reached, full, broken, is_full, is_broken, changed, cancel, schedule, Call,
  has,
}
use tele_bezel.Chats.Items.{clear_items, parse}

-- `tb_chats_find`, from the index `i` on
unfoldable pub find_from : List Chat → List ℕ → ℕ → Option ℕ
find_from [] id i = none
find_from (item ∷ items) id i = if same_bytes item.id id then some i else find_from items id (i + 1)

abbrev pub is_set : List ℕ → Bool
is_set [] = false
is_set (_ ∷ _) = true

module _ {L : Type 0} (k : Codes) (c : Config) (heap : Budget → Span → Bool) (q : Requests L) where
  abbrev pub called : Call → Chats L → Chats L
  called a s = record s { log = a ∷ s.log }

  -- `schedule`
  unfoldable pub reschedule : ℕ → Chats L → Chats L
  reschedule current s =
      let s' = called cancel (record s { refresh_due = 0 }) in
      if not s.active || not s.loaded || c.refresh_interval == 0
      then s'
      else called (schedule c.refresh_interval)
          (record s' { refresh_due = add32 current c.refresh_interval })

  abbrev pub args_of : ℕ → Chats L → RequestArgs
  args_of op s = record no_args {
    kind = k.request_chats;
    page_op = op;
    list = s.list;
    page_limit = c.page_limit;
    text_limit = c.text_limit;
    account = take 36 s.account;
  }

  -- The end of `request`, where the layer took the request or not.
  abbrev pub requested : Chats L → Chats L
  requested s =
      if s.pending == 0
      then record s { load = idle; error = error_from_outcome k.results (q.immediate s.requests) }
      else s

  -- `request`
  unfoldable pub request : Load → ℕ → Chats L → Chats L
  request load op s =
      let before = if s.pending == 0 then s.requests else q.cancel s.requests s.pending in
      let (requests, sequence) = q.submit before (args_of op s) c.timeout 2 false in
      called changed (
        requested (record s {
          requests = requests;
          load = load;
          error = pos error_none;
          pending = sequence;
        }))

  -- `tail_from`
  unfoldable pub tail_from : ℕ → Tail
  tail_from flags =
      if has flags k.has_more
      then has_next
      else if has flags k.partial
      then broken
      else if has flags k.has_more_unknown
      then unknown
      else end_reached

  abbrev pub with_tail : Tail → Chats L → Chats L
  with_tail tail s = record s { store = record s.store { tail = tail } }

  -- `fail`
  unfoldable pub fail : ℕ → ℤ → ℕ → Chats L → Chats L
  fail current error retry_after s =
      let s' = record s { pending = 0; load = idle } in
      if is_code error k.cursor_lost && not s.resynced
      then request refresh k.page_first (record s' { resynced = true })
      else called changed (
          reschedule current (
            with_tail (if is_more s.load then broken else s.store.tail)
              (record s' { error = error; retry_after = retry_after })))

  -- `if (!response->final) { ... tb_requests_cancel(...) }`
  abbrev pub ended_early : ℕ → Response → Chats L → Chats L
  ended_early sequence r s =
      if r.final then s else record s { pending = 0; requests = q.cancel s.requests sequence }

  -- The store before the first chunk of an answer is parsed.
  unfoldable pub first_chunk : Load → Store → Store
  first_chunk load s =
      let s' =
        if not (is_more load)
        then record (clear_items s) { tail = unknown }
        else if is_broken s.tail
        then record s { tail = unknown }
        else s in
      if is_full s'.tail && ltb (length s'.items) c.capacity
      then record s' { tail = unknown }
      else s'

  -- The end of `completed`, for the last chunk.
  unfoldable pub loaded_page : ℕ → ℕ → Chats L → Chats L
  loaded_page current flags s = called changed (
      reschedule current (
        with_tail (if is_full s.store.tail then full else tail_from flags) (record s {
          pending = 0;
          load = idle;
          error = pos error_none;
          resynced = false;
          loaded = true;
          loaded_at = current;
        })))

  -- `completed`, once the chunk is parsed
  unfoldable pub parsed_chunk : ℕ → ℕ → Response → Bool → Chats L → Chats L
  parsed_chunk current sequence r ok s =
      if not ok
      then fail current (pos k.results.protocol_error) 0 (ended_early sequence r s)
      else if not r.final
      then called changed s
      else loaded_page current r.flags s

  -- The list before a chunk is parsed.
  unfoldable pub begun : Response → Chats L → Chats L
  begun r s =
      if r.index == 0
      then record s {
        store = first_chunk s.load s.store;
        connection_not_ready = has r.flags k.connection_not_ready;
      }
      else s

  -- `completed`
  unfoldable pub completed : ℕ → ℕ → Response → Chats L → Chats L
  completed current sequence r s =
      let s' = begun r s in
      let (ok, store) = parse k c heap r.payload s'.store in
      if not (sequence == s.pending) || is_cancelled r.outcome
      then s
      else if not (is_response r.outcome) || not (is_code r.result k.results.ok)
      then fail current (error_from_response k.results r) r.retry_after (ended_early sequence r s)
      else parsed_chunk current sequence r ok (record s' { store = store })

  -- `tb_chats_init`, with its array; what `memset` leaves of `tail` is `has_next`.
  unfoldable pub init : L → Chats L
  init requests = record {
    requests = requests;
    account = [];
    list = 0;
    store = record {
      items = [];
      budget = record { used = 0; limit = c.text_budget };
      tail = has_next;
      connection = 0;
      proxy = false;
      unread_chats = 0;
      unread_messages = 0;
      summary_revision = 0;
    };
    load = idle;
    pending = 0;
    error = pos 0;
    retry_after = 0;
    connection_not_ready = false;
    loaded = false;
    active = false;
    resynced = false;
    loaded_at = 0;
    refresh_due = 0;
    log = [];
  }

  -- `tb_chats_close`
  unfoldable pub close : Chats L → Chats L
  close s = called cancel (record s {
    requests = if s.pending == 0 then s.requests else q.cancel s.requests s.pending;
    pending = 0;
    store = record (clear_items s.store) {
      tail = unknown;
      connection = k.connecting;
      proxy = false;
      unread_chats = 0;
      unread_messages = 0;
    };
    account = [];
    load = idle;
    error = pos error_none;
    retry_after = 0;
    loaded = false;
    active = false;
    resynced = false;
    connection_not_ready = false;
    refresh_due = 0;
  })

  -- `tb_chats_open`
  unfoldable pub open_list : List ℕ → ℕ → Chats L → Chats L
  open_list account list s = request first k.page_first (record (close s) {
    account = take 36 account;
    list = if list == k.list_archive then k.list_archive else k.list_main;
    active = true;
  })

  -- `tb_chats_set_list`
  unfoldable pub set_list : ℕ → Chats L → Chats L
  set_list list s = open_list s.account list s

  unfoldable pub load_tail : Tail → Chats L → Chats L
  load_tail has_next s = request more k.page_next s
  load_tail broken s = request more k.page_retry s
  load_tail unknown s = request refresh k.page_first s
  load_tail end_reached s = s
  load_tail full s = s

  -- `tb_chats_load_more`
  unfoldable pub load_more : Chats L → Chats L
  load_more s = if not (is_idle s.load) || not s.loaded then s else load_tail s.store.tail s

  -- `tb_chats_refresh`
  unfoldable pub refresh_now : Chats L → Chats L
  refresh_now s =
      if not (is_idle s.load)
      then s
      else request (if s.loaded then refresh else first) k.page_first s

  -- `tb_chats_retry`
  unfoldable pub retry : Chats L → Chats L
  retry s =
      if not (is_idle s.load)
      then s
      else if is_broken s.store.tail && s.loaded
      then load_more s
      else refresh_now s

  -- `tb_chats_set_active`
  unfoldable pub set_active : ℕ → Bool → Chats L → Chats L
  set_active current active s =
      let stale = not (c.stale_after == 0) && leb c.stale_after (sub32 current s.loaded_at) in
      let s' = record s { active = active } in
      if not (is_set s.account)
      then s
      else if not active
      then record (called cancel s') { refresh_due = 0 }
      else if stale && s.loaded && is_idle s.load
      then refresh_now s'
      else reschedule current s'

  -- `tb_chats_timer`
  unfoldable pub timer : ℕ → Chats L → Chats L
  timer current s =
      let s' = record s { refresh_due = 0 } in
      if not s.active
      then s'
      else if not (is_idle s.load)
      then reschedule current s'
      else refresh_now s'
