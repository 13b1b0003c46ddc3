-- ===== src/History/Kept.antt =====
-- The invariant of a history, and that the merging of a complete page keeps it.
use tele_bezel.Base.{
  ℕ, ◌≤◌, ◌≡◌, refl, inl, inr, Bool, true, false, ◌&&◌, ◌||◌, none, Option-cases, [], ◌∷◌, ltb,
  ◌==◌, arith, tests, if◌then◌else◌, Bool-cases,
}
use tele_bezel.Base.Int.{pos}
use tele_bezel.History.{
  Codes, Config, Store, History, Operation, no_operation, is_none, is_older, is_first, is_waiting,
  has,
}
use tele_bezel.History.Staging.{clear_items}
use tele_bezel.History.Merging.{
  is_empty, append_staging, prepend_staging, merge_page, evict_newest, sort_staging, merge_albums,
}
use tele_bezel.History.Order.{IsSorted, sort-IsSorted}
use tele_bezel.History.Pages.{
  earliest, arm, announce, schedule_periodic, recheck_top, set_top_from, merge_newest, follow_up,
  finish_newest, finish_sorted, finish,
}
use tele_bezel.History.Sound.{
  IsStored, clear_items-IsStored, sort_staging-IsStored, append_staging-IsStored,
  merge_page-IsStored, prepend_staging-IsStored, evict_newest-IsStored, merge_albums-IsStored,
}

-- The messages are as `IsStored` says, an operation is under way just when an answer is awaited, and
-- the two counts are at most two.
pub record Sound (c : Config) (s : Store) (op : Operation) (pending followups rechecks : ℕ)
    : Type 0 where
  pub stored : IsStored c s
  pub busy : is_none op ≡ (pending == 0)
  pub followups_le : followups ≤ 2
  pub rechecks_le : rechecks ≤ 2

pub record IsSound {L : Type 0} (c : Config) (h : History L) : Type 0 where
  pub sound : Sound c h.store h.op h.pending h.followups h.rechecks

with_stored :
    {c : Config} {s s' : Store} {op : Operation} {p f r : ℕ}
    → Sound c s op p f r
    → IsStored c s'
    → Sound c s' op p f r
with_stored v w = record {
  stored = w;
  busy = v.busy;
  followups_le = v.followups_le;
  rechecks_le = v.rechecks_le;
}

with_rechecks :
    {c : Config} {s : Store} {op : Operation} {p f r r' : ℕ}
    → Sound c s op p f r
    → r' ≤ 2
    → Sound c s op p f r'
with_rechecks v w = record {
  stored = v.stored;
  busy = v.busy;
  followups_le = v.followups_le;
  rechecks_le = w;
}

with_followups :
    {c : Config} {s : Store} {op : Operation} {p f r f' : ℕ}
    → Sound c s op p f r
    → f' ≤ 2
    → Sound c s op p f' r
with_followups v w = record {
  stored = v.stored;
  busy = v.busy;
  followups_le = w;
  rechecks_le = v.rechecks_le;
}

sort_staging-IsSorted : (s : Store) → IsSorted (sort_staging s).staging
unfolding sort_staging
sort_staging-IsSorted s = sort-IsSorted s.staging

module _ {L : Type 0} (k : Codes) (c : Config) where
  pub IsSound-if :
      (b : Bool) (x y : History L) → IsSound c x → IsSound c y → IsSound c (if b then x else y)
  IsSound-if true x y v w = v
  IsSound-if false x y v w = w

  pub announce-IsSound : (h : History L) → IsSound c h → IsSound c (announce k c h)
  unfolding announce
  announce-IsSound h v = record { sound = v.sound }

  pub schedule_periodic-IsSound :
      (current : ℕ) (h : History L) → IsSound c h → IsSound c (schedule_periodic k c current h)
  unfolding schedule_periodic
  schedule_periodic-IsSound current h v = record { sound = v.sound }

  pub arm-IsSound : (current : ℕ) (h : History L) → IsSound c h → IsSound c (arm k c current h)
  unfolding arm
  arm-IsSound current h v =
      elim (Option-cases
        (earliest current (h.followup_due ∷ h.recheck_due ∷ h.periodic_due ∷ []) none)) [
          | inl e ↦ rw (e, arm) (record { sound = v.sound })
          | inr (t, e) ↦ rw (e, arm) (record { sound = v.sound })
        ]

  recheck_top-IsSound :
      (current flags : ℕ) (is_older : Bool) (h : History L)
      → IsSound c h
      → IsSound c (recheck_top k c current flags is_older h)
  unfolding recheck_top
  recheck_top-IsSound current flags is_older h v =
      IsSound-if (is_waiting h.top && is_older) _ _
        (elim (Bool-cases (ltb h.rechecks 2)) [
          | inl e ↦ rw e (record { sound = with_rechecks v.sound (omega (tests, e)) })
          | inr e ↦ rw e (record { sound = v.sound })
        ])
        v

  set_top_from-IsSound :
      (current flags : ℕ) (is_older : Bool) (h : History L)
      → IsSound c h
      → IsSound c (set_top_from k c current flags is_older h)
  unfolding set_top_from
  set_top_from-IsSound current flags is_older h v =
      IsSound-if (has flags k.has_more) _ _
        (record { sound = with_rechecks {r' = 0} v.sound (omega arith) })
        (recheck_top-IsSound current flags is_older _ (
          IsSound-if (has flags k.partial) _ _ (record { sound = v.sound })
            (record { sound = v.sound })))

  merge_newest-IsSound :
      (current flags : ℕ) (is_first : Bool) (h : History L)
      → IsSound c h
      → IsSound c (merge_newest k c current flags is_first h)
  unfolding merge_newest
  merge_newest-IsSound current flags is_first h v =
      let cleared : IsStored c (clear_items h.store) =
        clear_items-IsStored c h.store v.sound.stored in
      let w : IsStored c (append_staging c (clear_items h.store)) =
        append_staging-IsStored c (clear_items h.store) cleared in
      let s : Store = record (append_staging c (clear_items h.store)) { truncated = false } in
      let all : IsStored c s = record {
        sorted = w.sorted;
        fits = w.fits;
        staged = w.staged;
        paid = w.paid;
      } in
      let next : History L = record h { store = merge_page c h.store } in
      IsSound-if (is_first || is_empty h.store.items) _ _
        (set_top_from-IsSound current flags false (record h { store = s })
          (record { sound = with_stored v.sound all }))
        (IsSound-if (is_empty h.store.staging) h next v
          (record { sound = with_stored v.sound (merge_page-IsStored c h.store v.sound.stored) }))

  follow_up-IsSound :
      (current flags : ℕ) (h : History L) → IsSound c h → IsSound c (follow_up k c current flags h)
  unfolding follow_up schedule_periodic
  follow_up-IsSound current flags h v =
      elim (Bool-cases (has flags k.refresh_pending && h.followup_chain && ltb h.followups 2)) [
        | inl e ↦ rw (e, follow_up) (record { sound = with_followups v.sound (ground arith) })
        | inr e ↦ rw (e, follow_up) (record { sound = v.sound })
      ]

  finish_newest-IsSound :
      (current flags : ℕ) (is_first : Bool) (h : History L)
      → IsSound c h
      → IsSound c (finish_newest k c current flags is_first h)
  unfolding finish_newest
  finish_newest-IsSound current flags is_first h v =
      follow_up-IsSound current flags
        (record (merge_newest k c current flags is_first h) {
          loaded = true;
          refreshed_at = current;
          refresh_error = pos 0;
        })
        (record { sound = (merge_newest-IsSound current flags is_first h v).sound })

  finish_sorted-IsSound :
      (current flags : ℕ) (op : Operation) (h : History L)
      → IsSorted h.store.staging
      → IsSound c h
      → IsSound c (finish_sorted k c current flags op h)
  unfolding finish_sorted
  finish_sorted-IsSound current flags op h s v =
      IsSound-if (is_older op) _ _
        (set_top_from-IsSound current flags true (record h { store = prepend_staging c h.store })
          (record {
            sound = with_stored v.sound (prepend_staging-IsStored c h.store s v.sound.stored);
          }))
        (finish_newest-IsSound current flags (is_first op) h v)

  -- The state that `finish` merges the page into.
  abbrev pub ended : ℕ → History L → History L
  ended flags h = record h {
    pending = 0;
    op = no_operation;
    error = pos 0;
    resynced = false;
    connection_not_ready = has flags k.connection_not_ready;
    store = sort_staging h.store;
  }

  merged-IsSound :
      (current flags : ℕ) (h : History L)
      → IsStored c h.store
      → h.followups ≤ 2
      → h.rechecks ≤ 2
      → IsSound c (finish_sorted k c current flags h.op (ended flags h))
  merged-IsSound current flags h s f r =
      finish_sorted-IsSound current flags h.op (ended flags h) (sort_staging-IsSorted h.store)
        (record {
          sound = record {
            stored = sort_staging-IsStored c h.store s;
            busy = refl;
            followups_le = f;
            rechecks_le = r;
          };
        })

  pub finish_sorted-IsStored :
      (current flags : ℕ) (h : History L)
      → IsStored c h.store
      → h.followups ≤ 2
      → h.rechecks ≤ 2
      → IsStored c (finish_sorted k c current flags h.op (ended flags h)).store
  finish_sorted-IsStored current flags h s f r = (merged-IsSound current flags h s f r).sound.stored

  pub finish-IsSound :
      (current flags : ℕ) (h : History L)
      → IsStored c h.store
      → h.followups ≤ 2
      → h.rechecks ≤ 2
      → IsSound c (finish k c current flags h)
  unfolding finish announce
  finish-IsSound current flags h s f r =
      let w : IsSound c (finish_sorted k c current flags h.op (ended flags h)) =
        merged-IsSound current flags h s f r in
      let x : IsStored c (
          merge_albums k
            (evict_newest c (finish_sorted k c current flags h.op (ended flags h)).store)) =
        merge_albums-IsStored c k _ (evict_newest-IsStored c _ w.sound.stored) in
      record { sound = (arm-IsSound current _ (record { sound = with_stored w.sound x })).sound }
