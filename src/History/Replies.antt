-- ===== src/History/Replies.antt =====
-- The invariant of a history is kept by its requests and their answers.
use tele_bezel.Base.{
  ℕ, ◌≤◌, ◌≡◌, refl, sym, ap, ◌∙◌, inl, inr, Bool, true, false, not, ◌&&◌, ◌||◌, ◌==◌, arith,
  if◌then◌else◌, Bool-cases,
}
use tele_bezel.Base.Int.{ℤ, pos}
use tele_bezel.Codec.{Span}
use tele_bezel.Text.{Budget}
use tele_bezel.Requests.Layer.{Response}
use tele_bezel.Errors.{is_code, error_from_response}
use tele_bezel.Sending.{Requests}
use tele_bezel.Sending.Calls.{is_response, is_cancelled}
use tele_bezel.History.{
  Codes, Config, History, failed, Operation, no_operation, first, is_none, is_older, is_first,
  is_loading, is_failed,
}
use tele_bezel.History.Staging.{clear_staging, parse}
use tele_bezel.History.Calls.{
  dropped, not_sent, submit, with_error, with_top, fail, ended_early, parsed_chunk, completed,
  is_total, out_of_memory,
}
use tele_bezel.History.Sound.{IsStored, clear_staging-IsStored, parse-IsStored}
use tele_bezel.History.Kept.{
  IsSound, IsSound-if, announce-IsSound, schedule_periodic-IsSound, arm-IsSound, finish-IsSound,
}

-- The invariant while an operation runs, which may set `op` before `pending`.
pub record IsKept {L : Type 0} (c : Config) (h : History L) : Type 0 where
  pub stored : IsStored c h.store
  pub followups_le : h.followups ≤ 2
  pub rechecks_le : h.rechecks ≤ 2

module _ {L : Type 0} (k : Codes) (c : Config) (heap : Budget → Span → Bool) (q : Requests L) where
  pub IsSound-IsKept : (h : History L) → IsSound c h → IsKept c h
  IsSound-IsKept h v = record {
    stored = v.sound.stored;
    followups_le = v.sound.followups_le;
    rechecks_le = v.sound.rechecks_le;
  }

  IsKept-if : (b : Bool) (x y : History L) → IsKept c x → IsKept c y → IsKept c (if b then x else y)
  IsKept-if true x y v w = v
  IsKept-if false x y v w = w

  pub dropped-IsKept : (h : History L) → IsKept c h → IsKept c (dropped k c heap q h)
  dropped-IsKept h v =
      IsKept-if (h.pending == 0) _ _ v
        (record { stored = v.stored; followups_le = v.followups_le; rechecks_le = v.rechecks_le })

  pub pending-dropped : (h : History L) → (dropped k c heap q h).pending ≡ 0
  pending-dropped h = elim (Bool-cases (h.pending == 0)) [
    | inl e ↦ rw e (ground arith)
    | inr e ↦ rw e refl
  ]

  -- With no operation and no request, the invariant is complete.
  pub idle-IsSound :
      (h : History L) → h.op ≡ no_operation → h.pending ≡ 0 → IsKept c h → IsSound c h
  idle-IsSound h o p v = record {
    sound = record {
      stored = v.stored;
      busy = ap is_none o ∙ sym (ap (λ n. n == 0) p);
      followups_le = v.followups_le;
      rechecks_le = v.rechecks_le;
    };
  }

  not_sent-IsSound :
      (op : Operation) (h : History L)
      → h.pending ≡ 0
      → IsKept c h
      → IsSound c (not_sent k c heap q op h)
  unfolding not_sent
  not_sent-IsSound op h p v =
      let w : IsSound c (record h { op = no_operation }) = idle-IsSound _ refl p (record {
        stored = v.stored;
        followups_le = v.followups_le;
        rechecks_le = v.rechecks_le;
      }) in
      IsSound-if k c (not h.loaded) _ _ (record { sound = w.sound })
        (IsSound-if k c (is_older op) _ _ (record { sound = w.sound }) (record { sound = w.sound }))

  sent-IsSound :
      (op : Operation) (h : History L)
      → is_none op ≡ false
      → h.op ≡ op
      → IsKept c h
      → IsSound c (if h.pending == 0 then not_sent k c heap q op h else h)
  sent-IsSound op h n o v = elim (Bool-cases (h.pending == 0)) [
    | inl e ↦ rw e (not_sent-IsSound op h (ground arith) v)
    | inr e ↦ rw e (record {
      sound = record {
        stored = v.stored;
        busy = ap is_none o ∙ n ∙ sym e;
        followups_le = v.followups_le;
        rechecks_le = v.rechecks_le;
      };
    })
  ]

  pub submit-IsSound :
      (op : Operation) (page_op : ℕ) (silent : Bool) (h : History L)
      → is_none op ≡ false
      → IsKept c h
      → IsSound c (submit k c heap q op page_op silent h)
  unfolding submit
  submit-IsSound op page_op silent h n v =
      let w : IsKept c (dropped k c heap q h) = dropped-IsKept h v in
      announce-IsSound k c _ (
        sent-IsSound op _ n refl (record {
          stored = clear_staging-IsStored c _ w.stored;
          followups_le = w.followups_le;
          rechecks_le = w.rechecks_le;
        }))

  with_error-IsSound :
      (error : ℤ) (op : Operation) (h : History L)
      → IsSound c h
      → IsSound c (with_error k c heap q error op h)
  unfolding with_error
  with_error-IsSound error op h v =
      IsSound-if k c (not h.loaded || is_total k c heap q error) _ _ (record { sound = v.sound })
        (IsSound-if k c (is_older op) _ _ (record { sound = v.sound }) (record { sound = v.sound }))

  with_top-IsSound :
      (error : ℤ) (op : Operation) (h : History L)
      → IsSound c h
      → IsSound c (with_top k c heap q error op h)
  unfolding with_top
  with_top-IsSound error op h v =
      let h' : History L =
        if h.loaded && is_loading h.top then record h { top = failed; top_error = error } else h in
      let w : IsSound c h' =
        IsSound-if k c (h.loaded && is_loading h.top) _ _ (record { sound = v.sound }) v in
      IsSound-if k c (h'.loaded && (is_code error k.cursor_lost || is_first op) && is_failed h'.top)
        _ _ (record { sound = w.sound }) w

  fail-IsSound :
      (current : ℕ) (error : ℤ) (retry_after : ℕ) (h : History L)
      → IsKept c h
      → IsSound c (fail k c heap q current error retry_after h)
  unfolding fail
  fail-IsSound current error retry_after h v =
      let h' : History L = record h {
        pending = 0;
        op = no_operation;
        store = clear_staging h.store;
        retry_after = retry_after;
      } in
      let s : IsStored c (clear_staging h.store) = clear_staging-IsStored c h.store v.stored in
      let w : IsSound c h' =
        idle-IsSound h' refl refl
          (record { stored = s; followups_le = v.followups_le; rechecks_le = v.rechecks_le }) in
      IsSound-if k c (is_code error k.cursor_lost && not h.resynced) _ _
        (submit-IsSound first k.page_first h.loaded
          (record h' { resynced = true; followups = 0; followup_chain = true; rechecks = 0 }) refl
          (record { stored = s; followups_le = omega arith; rechecks_le = omega arith }))
        (announce-IsSound k c _ (
          arm-IsSound k c current _ (
            schedule_periodic-IsSound k c current _
              (with_top-IsSound error h.op _ (with_error-IsSound error h.op h' w)))))

  ended_early-IsKept :
      (sequence : ℕ) (r : Response) (h : History L)
      → IsKept c h
      → IsKept c (ended_early k c heap q sequence r h)
  ended_early-IsKept sequence r h v =
      IsKept-if r.final h _ v
        (record { stored = v.stored; followups_le = v.followups_le; rechecks_le = v.rechecks_le })

  parsed_chunk-IsSound :
      (current sequence : ℕ) (r : Response) (ok : Bool) (h : History L)
      → IsSound c h
      → IsSound c (parsed_chunk k c heap q current sequence r ok h)
  unfolding parsed_chunk
  parsed_chunk-IsSound current sequence r ok h v =
      let s : IsStored c (clear_staging h.store) =
        clear_staging-IsStored c h.store v.sound.stored in
      IsSound-if k c (not ok) _ _
        (fail-IsSound current (pos k.results.protocol_error) 0 _
          (ended_early-IsKept sequence r h (IsSound-IsKept h v)))
        (IsSound-if k c (not r.final) _ _ v (
          IsSound-if k c h.store.staging_invalid _ _
            (fail-IsSound current (pos out_of_memory) 0 (record h { store = clear_staging h.store })
              (record {
                stored = s;
                followups_le = v.sound.followups_le;
                rechecks_le = v.sound.rechecks_le;
              }))
            (finish-IsSound k c current r.flags h v.sound.stored v.sound.followups_le
              v.sound.rechecks_le)))

  pub completed-IsSound :
      (current sequence : ℕ) (r : Response) (h : History L)
      → IsSound c h
      → IsSound c (completed k c heap q current sequence r h)
  unfolding completed
  completed-IsSound current sequence r h v =
      IsSound-if k c (not (sequence == h.pending) || is_cancelled r.outcome) _ _ v (
        IsSound-if k c (not (is_response r.outcome && is_code r.result k.results.ok)) _ _
          (fail-IsSound current (error_from_response k.results r) r.retry_after _
            (ended_early-IsKept sequence r h (IsSound-IsKept h v)))
          (parsed_chunk-IsSound current sequence r (parse k c heap r.payload h.store).0
            (record h { store = (parse k c heap r.payload h.store).1 })
            (record {
              sound = record {
                stored = parse-IsStored k c heap r.payload h.store v.sound.stored;
                busy = v.sound.busy;
                followups_le = v.sound.followups_le;
                rechecks_le = v.sound.rechecks_le;
              };
            })))
