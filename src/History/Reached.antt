-- ===== src/History/Reached.antt =====
-- Every state that a history reaches: events are the calls of history.h and the answers of the request
-- layer, in any order.
use tele_bezel.Base.{
  ℕ, ◌≤◌, refl, inl, inr, Bool, true, false, not, ◌&&◌, ◌||◌, List, [], ◌∷◌, leb, ◌==◌, arith,
  if◌then◌else◌, Bool-cases, sub32,
}
use tele_bezel.Codec.{Span}
use tele_bezel.Text.{Budget}
use tele_bezel.Requests.Layer.{Response}
use tele_bezel.Sending.{Requests}
use tele_bezel.History.{
  Codes, Config, History, Top, more, loading, failed, waiting, start, unknown, first, refresh,
  older, is_none, is_waiting, is_failed,
}
use tele_bezel.History.Staging.{clear_items}
use tele_bezel.History.Pages.{due}
use tele_bezel.History.Calls.{
  dropped, completed, init, close, open_chat, load_again, load_top, load_older, refresh_now, retry,
  set_active, fire, timer, opening, is_chat, is_open,
}
use tele_bezel.History.Sound.{IsStored, clear_items-IsStored, clear_staging-IsStored}
use tele_bezel.History.Kept.{IsSound, IsSound-if, schedule_periodic-IsSound, arm-IsSound}
use tele_bezel.History.Replies.{
  IsKept, IsSound-IsKept, dropped-IsKept, pending-dropped, idle-IsSound, submit-IsSound,
  completed-IsSound,
}

pub data Event : Type 0 where
  opens : List ℕ → List ℕ → ℕ → Bool → Event
  closes loads_older refreshes retries : Event
  sets_active : ℕ → Bool → Event
  fires : ℕ → Event
  answers : ℕ → ℕ → Response → Event

module _ {L : Type 0} (k : Codes) (c : Config) (heap : Budget → Span → Bool) (q : Requests L) where
  unfoldable pub after : Event → History L → History L
  after (opens account chat chat_type saved) h = open_chat k c heap q account chat chat_type saved h
  after closes h = close k c heap q h
  after loads_older h = load_older k c heap q h
  after refreshes h = refresh_now k c heap q h
  after retries h = retry k c heap q h
  after (sets_active current active) h = set_active k c heap q current active h
  after (fires current) h = timer k c heap q current h
  after (answers current sequence r) h = completed k c heap q current sequence r h

  unfoldable pub run : List Event → History L → History L
  run [] h = h
  run (e ∷ es) h = run es (after e h)

  close-IsSound : (h : History L) → IsSound c h → IsSound c (close k c heap q h)
  unfolding close
  close-IsSound h v =
      let w : IsKept c (dropped k c heap q h) =
        dropped-IsKept k c heap q h (IsSound-IsKept k c heap q h v) in
      idle-IsSound k c heap q _ refl (pending-dropped k c heap q h) (record {
        stored = clear_staging-IsStored c _ w.stored;
        followups_le = w.followups_le;
        rechecks_le = w.rechecks_le;
      })

  open_chat-IsSound :
      (account chat : List ℕ) (chat_type : ℕ) (saved : Bool) (h : History L)
      → IsSound c h
      → IsSound c (open_chat k c heap q account chat chat_type saved h)
  unfolding open_chat
  open_chat-IsSound account chat chat_type saved h v =
      let w : IsSound c (close k c heap q h) = close-IsSound h v in
      let x : IsStored c (clear_items (close k c heap q h).store) =
        clear_items-IsStored c _ w.sound.stored in
      IsSound-if k c (is_chat k c heap q account chat h && not h.store.truncated) _ _
        (submit-IsSound k c heap q first k.page_first true (opening k c heap q chat_type saved h)
          refl
          (record {
            stored = w.sound.stored;
            followups_le = omega arith;
            rechecks_le = omega arith;
          }))
        (submit-IsSound k c heap q first k.page_first false _ refl (record {
          stored = record { sorted = x.sorted; fits = x.fits; staged = x.staged; paid = x.paid };
          followups_le = omega arith;
          rechecks_le = omega arith;
        }))

  load_again-IsSound : (h : History L) → IsSound c h → IsSound c (load_again k c heap q h)
  unfolding load_again
  load_again-IsSound h v =
      IsSound-if k c (h.top_op == k.page_first) _ _
        (submit-IsSound k c heap q first k.page_first true _ refl (record {
          stored = v.sound.stored;
          followups_le = omega arith;
          rechecks_le = v.sound.rechecks_le;
        }))
        (IsSound-if k c (h.top_op == k.page_refresh) _ _
          (submit-IsSound k c heap q refresh k.page_refresh false _ refl (record {
            stored = v.sound.stored;
            followups_le = omega arith;
            rechecks_le = v.sound.rechecks_le;
          }))
          (submit-IsSound k c heap q older h.top_op false _ refl (record {
            stored = v.sound.stored;
            followups_le = v.sound.followups_le;
            rechecks_le = elim (Bool-cases (is_waiting h.top)) [
              | inl e ↦ rw e v.sound.rechecks_le
              | inr e ↦ rw e (omega arith)
            ];
          })))

  load_top-IsSound : (t : Top) (h : History L) → IsSound c h → IsSound c (load_top k c heap q t h)
  unfolding load_top
  load_top-IsSound more h v =
      submit-IsSound k c heap q older k.page_next false h refl (IsSound-IsKept k c heap q h v)
  load_top-IsSound failed h v = load_again-IsSound h v
  load_top-IsSound waiting h v = load_again-IsSound h v
  load_top-IsSound start h v = load_again-IsSound h v
  load_top-IsSound unknown h v = load_again-IsSound h v
  load_top-IsSound loading h v = v

  load_older-IsSound : (h : History L) → IsSound c h → IsSound c (load_older k c heap q h)
  unfolding load_older
  load_older-IsSound h v =
      IsSound-if k c (not h.loaded || not (is_none h.op)) _ _ v (load_top-IsSound h.top h v)

  refresh_now-IsSound : (h : History L) → IsSound c h → IsSound c (refresh_now k c heap q h)
  unfolding refresh_now
  refresh_now-IsSound h v =
      let w : IsKept c (record h { followups = 0; followup_chain = true; resynced = false }) =
        record {
          stored = v.sound.stored;
          followups_le = omega arith;
          rechecks_le = v.sound.rechecks_le;
        } in
      IsSound-if k c (not (is_none h.op) || not (is_open h.account)) _ _ v (
        IsSound-if k c (not h.loaded || h.store.truncated) _ _
          (submit-IsSound k c heap q first k.page_first h.loaded _ refl (record {
            stored = w.stored;
            followups_le = w.followups_le;
            rechecks_le = w.rechecks_le;
          }))
          (submit-IsSound k c heap q refresh k.page_refresh false _ refl (record {
            stored = w.stored;
            followups_le = w.followups_le;
            rechecks_le = w.rechecks_le;
          })))

  retry-IsSound : (h : History L) → IsSound c h → IsSound c (retry k c heap q h)
  unfolding retry
  retry-IsSound h v = IsSound-if k c (not (is_none h.op) || not (is_open h.account)) _ _ v (
      IsSound-if k c (not h.loaded) _ _
        (submit-IsSound k c heap q first k.page_first false _ refl (record {
          stored = v.sound.stored;
          followups_le = omega arith;
          rechecks_le = v.sound.rechecks_le;
        }))
        (IsSound-if k c (is_failed h.top) _ _ (load_older-IsSound h v) (refresh_now-IsSound h v)))

  set_active-IsSound :
      (current : ℕ) (active : Bool) (h : History L)
      → IsSound c h
      → IsSound c (set_active k c heap q current active h)
  unfolding set_active
  set_active-IsSound current active h v =
      let stale : Bool = leb c.refresh_interval (sub32 current h.refreshed_at) in
      IsSound-if k c (not (is_open h.account)) _ _ v (
        IsSound-if k c (not active) _ _ (arm-IsSound k c current _ (record { sound = v.sound })) (
          IsSound-if k c (h.loaded && is_none h.op && not h.store.truncated && stale) _ _
            (refresh_now-IsSound (record h { active = active }) (record { sound = v.sound }))
            (arm-IsSound k c current _ (
              schedule_periodic-IsSound k c current (record h { active = active })
                (record { sound = v.sound })))))

  fire-IsSound :
      (current : ℕ) (followup periodic recheck : Bool) (h : History L)
      → IsSound c h
      → IsSound c (fire k c heap q current followup periodic recheck h)
  unfolding fire
  fire-IsSound current followup periodic recheck h v =
      let n : ℕ = if periodic && not followup then 0 else h.followups in
      let le : n ≤ 2 = elim (Bool-cases (periodic && not followup)) [
        | inl e ↦ rw e (omega arith)
        | inr e ↦ rw e v.sound.followups_le
      ] in
      IsSound-if k c recheck _ _
        (submit-IsSound k c heap q older h.top_op false _ refl
          (IsSound-IsKept k c heap q (record h { recheck_due = 0 }) (record { sound = v.sound })))
        (IsSound-if k c (not h.active) _ _
          (arm-IsSound k c current _ (record {
            sound = record {
              stored = v.sound.stored;
              busy = v.sound.busy;
              followups_le = le;
              rechecks_le = v.sound.rechecks_le;
            };
          }))
          (submit-IsSound k c heap q refresh k.page_refresh true _ refl (record {
            stored = v.sound.stored;
            followups_le = le;
            rechecks_le = v.sound.rechecks_le;
          })))

  timer-IsSound :
      (current : ℕ) (h : History L) → IsSound c h → IsSound c (timer k c heap q current h)
  unfolding timer
  timer-IsSound current h v =
      let followup : Bool = due h.followup_due current in
      let periodic : Bool = due h.periodic_due current in
      let recheck : Bool = due h.recheck_due current in
      IsSound-if k c (not followup && not periodic && not recheck) _ _ (arm-IsSound k c current h v)
        (IsSound-if k c (not (is_none h.op)) _ _
          (arm-IsSound k c current _ (record { sound = v.sound }))
          (fire-IsSound current followup periodic recheck h v))

  after-IsSound : (e : Event) (h : History L) → IsSound c h → IsSound c (after e h)
  unfolding after
  after-IsSound (opens account chat chat_type saved) h v =
      open_chat-IsSound account chat chat_type saved h v
  after-IsSound closes h v = close-IsSound h v
  after-IsSound loads_older h v = load_older-IsSound h v
  after-IsSound refreshes h v = refresh_now-IsSound h v
  after-IsSound retries h v = retry-IsSound h v
  after-IsSound (sets_active current active) h v = set_active-IsSound current active h v
  after-IsSound (fires current) h v = timer-IsSound current h v
  after-IsSound (answers current sequence r) h v =
      completed-IsSound k c heap q current sequence r h v

  run-IsSound_from : (es : List Event) (h : History L) → IsSound c h → IsSound c (run es h)
  unfolding run
  run-IsSound_from [] h v = v
  run-IsSound_from (e ∷ es) h v = run-IsSound_from es (after e h) (after-IsSound e h v)

  -- From `tb_history_init` on, after any calls and answers in any order, the held messages are in the
  -- order of their keys, neither array is outgrown, the budget pays for every string, an operation is
  -- under way just when an answer is awaited, and the counts of follow-ups and rechecks are at most two.
  pub run-IsSound : (requests : L) (es : List Event) → IsSound c (run es (init k c heap q requests))
  unfolding init
  run-IsSound requests es = run-IsSound_from es _ (record {
    sound = record {
      stored = record { sorted = tt; fits = omega arith; staged = omega arith; paid = omega arith };
      busy = refl;
      followups_le = omega arith;
      rechecks_le = omega arith;
    };
  })
