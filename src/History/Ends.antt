-- ===== src/History/Ends.antt =====
-- What a complete page and a final answer leave.
use tele_bezel.Base.{
  ℕ, zero, suc, ◌+◌, ◌≤◌, ◌≡◌, refl, sym, subst, ◌∙◌, ◌⊎◌, inl, inr, Bool, true, false, none,
  Option-cases, List, [], ◌∷◌, arith, length, Bool-cases,
}
use tele_bezel.Text.{Budget}
use tele_bezel.Text.Copies.{Freed}
use tele_bezel.Text.Budgets.{costs}
use tele_bezel.History.{
  Codes, Config, Message, Store, History, Operation, no_operation, is_older, is_first,
}
use tele_bezel.History.Staging.{strings}
use tele_bezel.History.Merging.{
  prepend_staging, drop_newest, evict_loop, evict_newest, over_limits, merge_albums, album_step,
  album_loop, join, same_album,
}
use tele_bezel.History.Memory.{weight, IsPaid, free_message-Freed}
use tele_bezel.History.Paid.{evict_newest-IsPaid, length-drop_newest, costs-join, weight-reversed}
use tele_bezel.History.Kept.{IsSound, finish_sorted-IsStored, ended}
use tele_bezel.History.Pages.{
  earliest, arm, announce, schedule_periodic, recheck_top, set_top_from, merge_newest, follow_up,
  finish_newest, finish_sorted, finish,
}

within :
    (c : Config) (s : Store) (n : ℕ) → over_limits c s n ≡ false → s.budget.used ≤ s.budget.limit
unfolding over_limits
within c s n h = ground arith

-- Eviction ends within the limits, or with no message left.
evict_loop-ends :
    (n : ℕ) (c : Config) (s : Store)
    → length s.items ≡ n
    → (length (evict_loop n c s).items ≡ 0)
      ⊎ ((evict_loop n c s).budget.used ≤ (evict_loop n c s).budget.limit)
unfolding evict_loop
evict_loop-ends zero c s e = inl e
evict_loop-ends (suc n) c s e = elim (Bool-cases (over_limits c s (suc n))) [
  | inl o ↦ rw (o, evict_loop) (evict_loop-ends n c (drop_newest n s) (length-drop_newest n s e))
  | inr o ↦ rw (o, evict_loop) (inr (within c s (suc n) o))
]

weight-nil : (ms : List Message) → length ms ≡ 0 → weight ms ≡ 0
weight-nil [] e = refl
weight-nil (m ∷ ms) e = absurd (omega arith)

evict_newest-within :
    (c : Config) (s : Store)
    → IsPaid s
    → weight (evict_newest c s).items ≤ (evict_newest c s).budget.limit
unfolding evict_newest
evict_newest-within c s p =
    let paid : IsPaid (evict_loop (length s.items) c s) = evict_newest-IsPaid c s p in
    elim (evict_loop-ends (length s.items) c s refl) [
      | inl e ↦ omega (arith, weight-nil (evict_loop (length s.items) c s).items e)
      | inr e ↦ omega arith
    ]

module _ (k : Codes) where
  album_step-Freed : (m : Message) (st : List Message × Budget) → Freed st.1 (album_step k m st).1
  unfolding album_step
  album_step-Freed m ([], b) = (omega arith, refl)
  album_step-Freed m (last ∷ xs, b) = elim (Bool-cases (same_album k last m)) [
    | inl e ↦ rw (e, album_step) (free_message-Freed b (join k last m).1)
    | inr e ↦ rw (e, album_step) (omega arith, refl)
  ]

  album_loop-Freed :
      (ms : List Message) (st : List Message × Budget) → Freed st.1 (album_loop k ms st).1
  unfolding album_loop
  album_loop-Freed [] st = (omega arith, refl)
  album_loop-Freed (m ∷ ms) st =
      let (le, same) = album_step-Freed m st in
      let (le', same') = album_loop-Freed ms (album_step k m st) in
      (omega (arith, le, le'), same' ∙ same)

  weight-joined :
      (last m : Message)
      → costs (strings (join k last m).0) ≤ costs (strings last) + costs (strings m)
  weight-joined last m = omega (arith, costs-join k last m)

  album_step-weight :
      (m : Message) (st : List Message × Budget)
      → weight (album_step k m st).0 ≤ weight st.0 + costs (strings m)
  unfolding album_step
  album_step-weight m ([], b) = omega arith
  album_step-weight m (last ∷ xs, b) = elim (Bool-cases (same_album k last m)) [
    | inl e ↦ rw (e, album_step) (omega (arith, weight-joined last m))
    | inr e ↦ rw (e, album_step) (omega arith)
  ]

  album_loop-weight :
      (ms : List Message) (st : List Message × Budget)
      → weight (album_loop k ms st).0 ≤ weight st.0 + weight ms
  unfolding album_loop
  album_loop-weight [] st = omega arith
  album_loop-weight (m ∷ ms) st =
      omega (arith, album_loop-weight ms (album_step k m st), album_step-weight m st)

  merge_albums-within :
      (s : Store) (w : ℕ) → weight s.items ≤ w → weight (merge_albums k s).items ≤ w
  unfolding merge_albums
  merge_albums-within s w h = omega (
    arith,
    album_loop-weight s.items ([], s.budget),
    weight-reversed [] (album_loop k s.items ([], s.budget)).0,
  )

  limit-merge_albums : (s : Store) → (merge_albums k s).budget.limit ≡ s.budget.limit
  unfolding merge_albums
  limit-merge_albums s = (album_loop-Freed s.items ([], s.budget)).1

-- What a part of `finish` leaves alone.
pub record Same {L : Type 0} (h h' : History L) : Type 0 where
  pub op : h'.op ≡ h.op
  pub pending : h'.pending ≡ h.pending

module _ {L : Type 0} (k : Codes) (c : Config) where
  pub arm-Same : (current : ℕ) (h : History L) → Same h (arm k c current h)
  unfolding arm
  arm-Same current h =
      elim (Option-cases
        (earliest current (h.followup_due ∷ h.recheck_due ∷ h.periodic_due ∷ []) none)) [
          | inl e ↦ rw (e, arm) (record { op = refl; pending = refl })
          | inr (t, e) ↦ rw (e, arm) (record { op = refl; pending = refl })
        ]

  store-arm : (current : ℕ) (h : History L) → (arm k c current h).store ≡ h.store
  unfolding arm
  store-arm current h =
      elim (Option-cases
        (earliest current (h.followup_due ∷ h.recheck_due ∷ h.periodic_due ∷ []) none)) [
          | inl e ↦ rw (e, arm) refl
          | inr (t, e) ↦ rw (e, arm) refl
        ]

  set_top_from-Same :
      (current flags : ℕ) (older : Bool) (h : History L)
      → Same h (set_top_from k c current flags older h)
  unfolding set_top_from recheck_top
  set_top_from-Same current flags older h = record { op = ground arith; pending = ground arith }

  finish_newest-Same :
      (current flags : ℕ) (older : Bool) (h : History L)
      → Same h (finish_newest k c current flags older h)
  unfolding merge_newest set_top_from recheck_top finish_newest follow_up schedule_periodic
  finish_newest-Same current flags older h = record { op = ground arith; pending = ground arith }

  finish_sorted-Same :
      (current flags : ℕ) (op : Operation) (h : History L)
      → Same h (finish_sorted k c current flags op h)
  unfolding finish_sorted
  finish_sorted-Same current flags op h = elim (Bool-cases (is_older op)) [
    | inl e ↦
        let s =
          set_top_from-Same current flags true (record h { store = prepend_staging c h.store }) in
        rw (e, finish_sorted) (record { op = s.op; pending = s.pending })
    | inr e ↦ rw (e, finish_sorted) (finish_newest-Same current flags (is_first op) h)
  ]

  abbrev pub Ended : History L → Type 0
  Ended h = (h.op ≡ no_operation) × (h.pending ≡ 0)

  pub finish-Ended : (current flags : ℕ) (h : History L) → Ended (finish k c current flags h)
  unfolding finish announce
  finish-Ended current flags h =
      let s = finish_sorted-Same current flags h.op (ended k c flags h) in
      ((arm-Same current _).op ∙ s.op, (arm-Same current _).pending ∙ s.pending)

  -- When a page is complete, the strings of the held messages cost at most the limit of the budget.
  pub finish-within :
      (current flags : ℕ) (h : History L)
      → IsSound c h
      → weight (finish k c current flags h).store.items
        ≤ (finish k c current flags h).store.budget.limit
  unfolding finish announce
  finish-within current flags h v =
      let merged : History L = finish_sorted k c current flags h.op (ended k c flags h) in
      let s : Store = merge_albums k (evict_newest c merged.store) in
      let paid : IsPaid merged.store =
        (finish_sorted-IsStored k c current flags h v.sound.stored v.sound.followups_le
          v.sound.rechecks_le).paid in
      let w : weight s.items ≤ s.budget.limit = omega (
        arith,
        limit-merge_albums k (evict_newest c merged.store),
        merge_albums-within k (evict_newest c merged.store)
            (evict_newest c merged.store).budget.limit (evict_newest-within c merged.store paid),
      ) in
      subst (λ t. weight t.items ≤ t.budget.limit) (sym (store-arm current _)) w
