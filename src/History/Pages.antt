-- ===== src/History/Pages.antt =====
-- What happens when a page is complete: `set_top_from`, `merge_newest`, `finish_newest` and `finish` of
-- history.c, with the timers. `current` is what the clock port gives while an operation runs.
use tele_bezel.Base.{
  ℕ, ◌+◌, Bool, true, false, not, ◌&&◌, ◌||◌, Option, none, some, List, [], ◌∷◌, ltb, ◌==◌,
  if◌then◌else◌, get_or, add32, sub32, reached,
}
use tele_bezel.Base.Int.{pos}
use tele_bezel.History.{
  Codes, Config, Store, History, Call, changed, cancel, schedule, more, failed, waiting, start,
  unknown, Operation, no_operation, has, is_first, is_older, is_waiting,
}
use tele_bezel.History.Staging.{clear_items}
use tele_bezel.History.Merging.{
  is_empty, merge_page, append_staging, prepend_staging, evict_newest, sort_staging, merge_albums,
}

-- `due`
unfoldable pub due : ℕ → ℕ → Bool
due at current = not (at == 0) && reached current at

-- `at`
unfoldable pub at : ℕ → ℕ → ℕ
at current delay = let value = add32 current delay in if value == 0 then 1 else value

-- The loop of `arm`, over the times of the timers.
unfoldable pub earliest : ℕ → List ℕ → Option ℕ → Option ℕ
earliest current [] best = best
earliest current (t ∷ ts) best =
    let remaining = if due t current then 0 else sub32 t current in
    earliest current ts (
      if t == 0 then best else elim best [
        | none ↦ some remaining
        | some e ↦ if ltb remaining e then some remaining else some e
      ])

-- The fields of `TbConfig` delays by index.
abbrev pub delay_at : Config → ℕ → ℕ
delay_at c i = get_or c.followup_delays i 0

module _ {L : Type 0} (k : Codes) (c : Config) where
  abbrev pub called : Call → History L → History L
  called a h = record h { log = a ∷ h.log }

  -- `changed`
  unfoldable pub announce : History L → History L
  announce h = called changed (record h { revision = add32 h.revision 1 })

  -- `arm`
  unfoldable pub arm : ℕ → History L → History L
  arm current h =
      elim (earliest current (h.followup_due ∷ h.recheck_due ∷ h.periodic_due ∷ []) none) [
        | none ↦ called cancel h
        | some e ↦ called (schedule (if e == 0 then 1 else e)) (called cancel h)
      ]

  -- `schedule_periodic`
  unfoldable pub schedule_periodic : ℕ → History L → History L
  schedule_periodic current h = record h {
    periodic_due =
        if h.active && h.loaded && not h.store.truncated && not (c.refresh_interval == 0)
        then at current c.refresh_interval
        else 0;
  }

  -- The last part of `set_top_from`: a recheck of older messages, twice at most.
  unfoldable pub recheck_top : ℕ → ℕ → Bool → History L → History L
  recheck_top current flags older h =
      if is_waiting h.top && older
      then if ltb h.rechecks 2
        then record h {
          recheck_due = at current (delay_at c h.rechecks);
          rechecks = h.rechecks + 1;
        }
        else record h { top = if has flags k.partial then failed else start }
      else h

  -- `set_top_from`
  unfoldable pub set_top_from : ℕ → ℕ → Bool → History L → History L
  set_top_from current flags older h =
      let waits = has flags k.refresh_pending in
      let h' = record h { top_error = pos 0 } in
      if has flags k.has_more
      then record h' { top = more; top_op = k.page_next; rechecks = 0; recheck_due = 0 }
      else recheck_top current flags older (
          if has flags k.partial
          then record h' {
            top_op = if older then k.page_retry else k.page_refresh;
            top = if waits then waiting else failed;
          }
          else record h' {
            top_op = if older then k.page_recheck else k.page_refresh;
            top = if has flags k.local_exhausted then if waits then waiting else start else unknown;
          })

  abbrev pub with_store : History L → Store → History L
  with_store h s = record h { store = s }

  -- `merge_newest`
  unfoldable pub merge_newest : ℕ → ℕ → Bool → History L → History L
  merge_newest current flags is_first h =
      let s = h.store in
      if is_first || is_empty s.items
      then set_top_from current flags false
          (with_store h (record (append_staging c (clear_items s)) { truncated = false }))
      else if is_empty s.staging
      then h
      else with_store h (merge_page c s)

  -- The end of `finish_newest`: one more refresh may follow, twice at most.
  unfoldable pub follow_up : ℕ → ℕ → History L → History L
  follow_up current flags h = schedule_periodic current (
      if has flags k.refresh_pending && h.followup_chain && ltb h.followups 2
      then record h {
        followup_due = at current (delay_at c h.followups);
        followups = h.followups + 1;
      }
      else record h { followup_due = 0; followup_chain = false })

  -- `finish_newest`
  unfoldable pub finish_newest : ℕ → ℕ → Bool → History L → History L
  finish_newest current flags is_first h =
      follow_up current flags (record (merge_newest current flags is_first h) {
        loaded = true;
        refreshed_at = current;
        refresh_error = pos 0;
      })

  -- `finish`, once the page is sorted
  unfoldable pub finish_sorted : ℕ → ℕ → Operation → History L → History L
  finish_sorted current flags op h =
      if is_older op
      then set_top_from current flags true (with_store h (prepend_staging c h.store))
      else finish_newest current flags (is_first op) h

  -- `finish`
  unfoldable pub finish : ℕ → ℕ → History L → History L
  finish current flags h =
      let ended = record h {
        pending = 0;
        op = no_operation;
        error = pos 0;
        resynced = false;
        connection_not_ready = has flags k.connection_not_ready;
        store = sort_staging h.store;
      } in
      let merged = finish_sorted current flags h.op ended in
      let s = merge_albums k (evict_newest c merged.store) in
      announce (
        arm current (record merged {
          store = s;
          periodic_due = if s.truncated then 0 else merged.periodic_due;
        }))
