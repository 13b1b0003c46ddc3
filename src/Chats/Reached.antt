-- ===== src/Chats/Reached.antt =====
-- Every state that a list of chats reaches: events are the calls of chats.h and the answers, in any
-- order.
use tele_bezel.Base.{
  ℕ, ◌≡◌, refl, sym, ◌∙◌, inl, inr, Bool, true, false, not, ◌&&◌, ◌||◌, List, [], ◌∷◌, ltb, leb,
  ◌==◌, arith, if◌then◌else◌, length, Bool-cases, sub32,
}
use tele_bezel.Base.Int.{ℤ, pos}
use tele_bezel.Codec.{Span}
use tele_bezel.Text.{Budget}
use tele_bezel.Requests.Layer.{Response}
use tele_bezel.Errors.{is_code, error_from_response}
use tele_bezel.Sending.{Requests}
use tele_bezel.Sending.Calls.{is_response, is_cancelled}
use tele_bezel.Chats.{
  Codes, Config, Store, Chats, Load, first, more, refresh, is_idle, is_more, Tail, has_next,
  unknown, end_reached, full, broken, is_full, is_broken, changed,
}
use tele_bezel.Chats.Items.{clear_items, parse}
use tele_bezel.Chats.Calls.{
  called, reschedule, requested, request, tail_from, fail, ended_early, first_chunk, loaded_page,
  parsed_chunk, begun, completed, init, close, open_list, set_list, load_tail, load_more,
  refresh_now, retry, set_active, timer, is_set,
}
use tele_bezel.Chats.Sound.{IsStored, with_fields, clear_items-IsStored, parse-IsStored}

-- A request is under way just when an answer is awaited.
pub record IsSound {L : Type 0} (c : Config) (s : Chats L) : Type 0 where
  pub stored : IsStored c s.store
  pub busy : is_idle s.load ≡ (s.pending == 0)

pub data Event : Type 0 where
  opens : List ℕ → ℕ → Event
  sets_list : ℕ → Event
  loads_more refreshes retries closes : Event
  sets_active : ℕ → Bool → Event
  fires : ℕ → Event
  answers : ℕ → ℕ → Response → Event

module _ {L : Type 0} (k : Codes) (c : Config) (heap : Budget → Span → Bool) (q : Requests L) where
  unfoldable pub after : Event → Chats L → Chats L
  after (opens account list) s = open_list k c heap q account list s
  after (sets_list list) s = set_list k c heap q list s
  after loads_more s = load_more k c heap q s
  after refreshes s = refresh_now k c heap q s
  after retries s = retry k c heap q s
  after closes s = close k c heap q s
  after (sets_active current active) s = set_active k c heap q current active s
  after (fires current) s = timer k c heap q current s
  after (answers current sequence r) s = completed k c heap q current sequence r s

  unfoldable pub run : List Event → Chats L → Chats L
  run [] s = s
  run (e ∷ es) s = run es (after e s)

  IsSound-if :
      (b : Bool) (x y : Chats L) → IsSound c x → IsSound c y → IsSound c (if b then x else y)
  IsSound-if true x y v w = v
  IsSound-if false x y v w = w

  Stored-if :
      (b : Bool) (x y : Chats L)
      → IsStored c x.store
      → IsStored c y.store
      → IsStored c (if b then x else y).store
  Stored-if true x y v w = v
  Stored-if false x y v w = w

  reschedule-IsSound :
      (current : ℕ) (s : Chats L) → IsSound c s → IsSound c (reschedule k c heap q current s)
  unfolding reschedule
  reschedule-IsSound current s v =
      IsSound-if (not s.active || not s.loaded || c.refresh_interval == 0) _ _
        (record { stored = v.stored; busy = v.busy }) (record { stored = v.stored; busy = v.busy })

  requested-IsSound :
      (s : Chats L)
      → is_idle s.load ≡ false
      → IsStored c s.store
      → IsSound c (requested k c heap q s)
  requested-IsSound s i v = elim (Bool-cases (s.pending == 0)) [
    | inl e ↦ rw e (record { stored = v; busy = sym e })
    | inr e ↦ rw e (record { stored = v; busy = i ∙ sym e })
  ]

  called-IsSound : (s : Chats L) → IsSound c s → IsSound c (called k c heap q changed s)
  called-IsSound s v = record { stored = v.stored; busy = v.busy }

  request-IsSound :
      (load : Load) (op : ℕ) (s : Chats L)
      → is_idle load ≡ false
      → IsStored c s.store
      → IsSound c (request k c heap q load op s)
  unfolding request
  request-IsSound load op s i v = called-IsSound _ (requested-IsSound _ i v)

  with_tail-IsStored :
      (tail : Tail) (s : Store) → IsStored c s → IsStored c (record s { tail = tail })
  with_tail-IsStored tail s v = record {
    fits = v.fits;
    distinct = v.distinct;
    paid = v.paid;
    within = v.within;
  }

  fail-IsSound :
      (current : ℕ) (error : ℤ) (retry_after : ℕ) (s : Chats L)
      → IsStored c s.store
      → IsSound c (fail k c heap q current error retry_after s)
  unfolding fail
  fail-IsSound current error retry_after s v =
      IsSound-if (is_code error k.cursor_lost && not s.resynced) _ _
        (request-IsSound refresh k.page_first _ refl v)
        (called-IsSound _ (
          reschedule-IsSound current _ (record {
            stored = with_tail-IsStored (if is_more s.load then broken else s.store.tail) s.store v;
            busy = refl;
          })))

  loaded_page-IsSound :
      (current flags : ℕ) (s : Chats L)
      → IsStored c s.store
      → IsSound c (loaded_page k c heap q current flags s)
  unfolding loaded_page
  loaded_page-IsSound current flags s v = called-IsSound _ (
      reschedule-IsSound current _ (record {
        stored =
            with_tail-IsStored (if is_full s.store.tail then full else tail_from k c heap q flags)
              s.store v;
        busy = refl;
      }))

  IsStored-if :
      (b : Bool) (s t : Store) → IsStored c s → IsStored c t → IsStored c (if b then s else t)
  IsStored-if true s t v w = v
  IsStored-if false s t v w = w

  first_chunk-IsStored :
      (load : Load) (s : Store) → IsStored c s → IsStored c (first_chunk k c heap q load s)
  unfolding first_chunk
  first_chunk-IsStored load s v =
      let s' : Store =
        if not (is_more load)
        then record (clear_items s) { tail = unknown }
        else if is_broken s.tail
        then record s { tail = unknown }
        else s in
      let w : IsStored c s' =
        IsStored-if (not (is_more load)) _ _
          (with_tail-IsStored unknown (clear_items s) (clear_items-IsStored c s v))
          (IsStored-if (is_broken s.tail) _ s (with_tail-IsStored unknown s v) v) in
      IsStored-if (is_full s'.tail && ltb (length s'.items) c.capacity) _ s'
        (with_tail-IsStored unknown s' w) w

  begun-IsStored :
      (r : Response) (s : Chats L) → IsStored c s.store → IsStored c (begun k c heap q r s).store
  unfolding begun
  begun-IsStored r s v = Stored-if (r.index == 0) _ s (first_chunk-IsStored s.load s.store v) v

  -- The first chunk takes no part in the request.
  busy-begun :
      (r : Response) (s : Chats L)
      → is_idle s.load ≡ (s.pending == 0)
      → is_idle (begun k c heap q r s).load ≡ ((begun k c heap q r s).pending == 0)
  unfolding begun
  busy-begun r s b = elim (Bool-cases (r.index == 0)) [
    | inl e ↦ rw (e, begun) b
    | inr e ↦ rw (e, begun) b
  ]

  ended_early-IsStored :
      (sequence : ℕ) (r : Response) (s : Chats L)
      → IsStored c s.store
      → IsStored c (ended_early k c heap q sequence r s).store
  ended_early-IsStored sequence r s v = Stored-if r.final s _ v v

  parsed_chunk-IsSound :
      (current sequence : ℕ) (r : Response) (ok : Bool) (s : Chats L)
      → IsSound c s
      → IsSound c (parsed_chunk k c heap q current sequence r ok s)
  unfolding parsed_chunk
  parsed_chunk-IsSound current sequence r ok s v =
      IsSound-if (not ok) _ _
        (fail-IsSound current (pos k.results.protocol_error) 0 _
          (ended_early-IsStored sequence r s v.stored))
        (IsSound-if (not r.final) _ _ (called-IsSound s v)
          (loaded_page-IsSound current r.flags s v.stored))

  completed-IsSound :
      (current sequence : ℕ) (r : Response) (s : Chats L)
      → IsSound c s
      → IsSound c (completed k c heap q current sequence r s)
  unfolding completed
  completed-IsSound current sequence r s v =
      let s' : Chats L = begun k c heap q r s in
      IsSound-if (not (sequence == s.pending) || is_cancelled r.outcome) s _ v (
        IsSound-if (not (is_response r.outcome) || not (is_code r.result k.results.ok)) _ _
          (fail-IsSound current (error_from_response k.results r) r.retry_after _
            (ended_early-IsStored sequence r s v.stored))
          (parsed_chunk-IsSound current sequence r (parse k c heap r.payload s'.store).0
            (record s' { store = (parse k c heap r.payload s'.store).1 })
            (record {
              stored = parse-IsStored k c heap r.payload s'.store (begun-IsStored r s v.stored);
              busy = busy-begun r s v.busy;
            })))

  close-IsStored : (s : Chats L) → IsStored c s.store → IsStored c (close k c heap q s).store
  unfolding close
  close-IsStored s v =
      with_fields k c heap (clear_items s.store) _ refl refl (clear_items-IsStored c s.store v)

  close-IsSound : (s : Chats L) → IsSound c s → IsSound c (close k c heap q s)
  unfolding close
  close-IsSound s v = record { stored = close-IsStored s v.stored; busy = refl }

  open_list-IsSound :
      (account : List ℕ) (list : ℕ) (s : Chats L)
      → IsSound c s
      → IsSound c (open_list k c heap q account list s)
  unfolding open_list
  open_list-IsSound account list s v =
      request-IsSound first k.page_first _ refl (close-IsStored s v.stored)

  load_tail-IsSound :
      (tail : Tail) (s : Chats L) → IsSound c s → IsSound c (load_tail k c heap q tail s)
  unfolding load_tail
  load_tail-IsSound has_next s v = request-IsSound more k.page_next s refl v.stored
  load_tail-IsSound broken s v = request-IsSound more k.page_retry s refl v.stored
  load_tail-IsSound unknown s v = request-IsSound refresh k.page_first s refl v.stored
  load_tail-IsSound end_reached s v = v
  load_tail-IsSound full s v = v

  load_more-IsSound : (s : Chats L) → IsSound c s → IsSound c (load_more k c heap q s)
  unfolding load_more
  load_more-IsSound s v =
      IsSound-if (not (is_idle s.load) || not s.loaded) s _ v (load_tail-IsSound s.store.tail s v)

  refresh_now-IsSound : (s : Chats L) → IsSound c s → IsSound c (refresh_now k c heap q s)
  unfolding refresh_now
  refresh_now-IsSound s v =
      let under_way : is_idle (if s.loaded then refresh else first) ≡ false = ground arith in
      IsSound-if (not (is_idle s.load)) s _ v (request-IsSound _ k.page_first s under_way v.stored)

  set_active-IsSound :
      (current : ℕ) (active : Bool) (s : Chats L)
      → IsSound c s
      → IsSound c (set_active k c heap q current active s)
  unfolding set_active
  set_active-IsSound current active s v =
      let s' : Chats L = record s { active = active } in
      let v' : IsSound c s' = record { stored = v.stored; busy = v.busy } in
      let stale : Bool =
        not (c.stale_after == 0) && leb c.stale_after (sub32 current s.loaded_at) in
      IsSound-if (not (is_set s.account)) s _ v (
        IsSound-if (not active) _ _ (record { stored = v.stored; busy = v.busy })
          (IsSound-if (stale && s.loaded && is_idle s.load) _ _ (refresh_now-IsSound s' v')
            (reschedule-IsSound current s' v')))

  timer-IsSound : (current : ℕ) (s : Chats L) → IsSound c s → IsSound c (timer k c heap q current s)
  unfolding timer
  timer-IsSound current s v =
      let s' : Chats L = record s { refresh_due = 0 } in
      let v' : IsSound c s' = record { stored = v.stored; busy = v.busy } in
      IsSound-if (not s.active) s' _ v' (
        IsSound-if (not (is_idle s.load)) _ _ (reschedule-IsSound current s' v')
          (refresh_now-IsSound s' v'))

  after-IsSound : (e : Event) (s : Chats L) → IsSound c s → IsSound c (after e s)
  unfolding after set_list retry
  after-IsSound (opens account list) s v = open_list-IsSound account list s v
  after-IsSound (sets_list list) s v = open_list-IsSound s.account list s v
  after-IsSound loads_more s v = load_more-IsSound s v
  after-IsSound refreshes s v = refresh_now-IsSound s v
  after-IsSound retries s v = IsSound-if (not (is_idle s.load)) s _ v (
      IsSound-if (is_broken s.store.tail && s.loaded) _ _ (load_more-IsSound s v)
        (refresh_now-IsSound s v))
  after-IsSound closes s v = close-IsSound s v
  after-IsSound (sets_active current active) s v = set_active-IsSound current active s v
  after-IsSound (fires current) s v = timer-IsSound current s v
  after-IsSound (answers current sequence r) s v = completed-IsSound current sequence r s v

  run-IsSound_from : (es : List Event) (s : Chats L) → IsSound c s → IsSound c (run es s)
  unfolding run
  run-IsSound_from [] s v = v
  run-IsSound_from (e ∷ es) s v = run-IsSound_from es (after e s) (after-IsSound e s v)

  -- The list after the events.
  unfoldable pub chats_after : L → List Event → Chats L
  chats_after requests es = run es (init k c heap q requests)

  -- From `tb_chats_init` on, after any calls and answers in any order, no more chats are held than the
  -- array has room for, no id is held twice, the budget pays for every string and is within its limit,
  -- and a load is under way just when an answer is awaited.
  pub chats_after-IsSound : (requests : L) (es : List Event) → IsSound c (chats_after requests es)
  unfolding chats_after init
  chats_after-IsSound requests es = run-IsSound_from es _ (record {
    stored = record { fits = omega arith; distinct = tt; paid = omega arith; within = omega arith };
    busy = refl;
  })
