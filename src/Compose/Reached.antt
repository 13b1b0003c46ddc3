-- ===== src/Compose/Reached.antt =====
-- Every state that a composition reaches: events are the calls of compose.h and the answers, in any
-- order. The layer numbers its requests from 1 (Requests/Sequence).
use tele_bezel.Base.{
  ℕ, suc, ◌≡◌, refl, sym, ap, ◌∙◌, inl, inr, Bool, true, false, not, ◌||◌, Option, none, some, List,
  [], ◌∷◌, ltb, leb, ◌==◌, arith, if◌then◌else◌, length, Bool-cases,
}
use tele_bezel.Requests.Layer.{Response}
use tele_bezel.Sending.{Requests}
use tele_bezel.Compose.{Codes, Config, Compose, ComposeTarget}
use tele_bezel.Compose.Parts.{free_previews}
use tele_bezel.Compose.Calls.{
  cancel_templates, cancel_draft, free_draft, load_templates, templates_done, draft_done, init,
  discard_current, pick, dictated_long, dictate, drop_draft, close, open_target, is_set,
  draft_limit,
}
use tele_bezel.Compose.Sound.{IsSound}
use tele_bezel.Compose.Answers.{
  IsKept, announce-IsSound, load_templates-IsSound, templates_done-IsSound, draft_done-IsSound,
  request_draft-IsSound,
}

pub data Event : Type 0 where
  opens : Option ComposeTarget → Event
  loads : Bool → Event
  picks : ℕ → Event
  dictates : Option (List ℕ) → Event
  drops : Event
  closes : Bool → Event
  templates_come draft_comes : ℕ → Response → Event

module _ {L : Type 0} (k : Codes) (c : Config) (heap : ℕ → Bool) (q : Requests L) where
  unfoldable pub after : Event → Compose L → Compose L
  after (opens target) s = (open_target k c heap q target s).1
  after (loads again) s = load_templates k c heap q again s
  after (picks index) s = (pick k c heap q index s).1
  after (dictates text) s = (dictate k c heap q text s).1
  after drops s = drop_draft k c heap q s
  after (closes keep_draft) s = close k c heap q keep_draft s
  after (templates_come n r) s = templates_done k c heap q (suc n) r s
  after (draft_comes n r) s = draft_done k c heap q (suc n) r s

  unfoldable pub run : List Event → Compose L → Compose L
  run [] s = s
  run (e ∷ es) s = run es (after e s)

  Result-if :
      (b : Bool) (x y : Bool × Compose L)
      → IsSound c x.1
      → IsSound c y.1
      → IsSound c (if b then x else y).1
  Result-if true x y v w = v
  Result-if false x y v w = w

  IsSound-IsKept : (s : Compose L) → IsSound c s → IsKept k c heap q s
  IsSound-IsKept s v = record { listed_in = v.listed_in; listing_busy = v.listing_busy }

  pick-IsSound : (index : ℕ) (s : Compose L) → IsSound c s → IsSound c (pick k c heap q index s).1
  unfolding pick
  pick-IsSound index s v =
      Result-if (not s.is_shown || leb s.template_count index) (false, s) _ v
        (request_draft-IsSound k c heap q _ s (IsSound-IsKept s v))

  discard_current-IsKept :
      (s : Compose L) → IsKept k c heap q s → IsKept k c heap q (discard_current k c heap q s)
  unfolding discard_current
  discard_current-IsKept s v = elim (Bool-cases (s.draft_id == 0)) [
    | inl e ↦ rw (e, discard_current) v
    | inr e ↦
        rw (e, discard_current) (record { listed_in = v.listed_in; listing_busy = v.listing_busy })
  ]

  draft_pending-discard_current :
      (s : Compose L) → (discard_current k c heap q s).draft_pending ≡ s.draft_pending
  unfolding discard_current
  draft_pending-discard_current s = ground arith

  templates_pending-discard_current :
      (s : Compose L) → (discard_current k c heap q s).templates_pending ≡ s.templates_pending
  unfolding discard_current
  templates_pending-discard_current s = ground arith

  dictated_long-IsSound :
      (text : List ℕ) (s : Compose L)
      → s.draft_pending ≡ 0
      → IsKept k c heap q s
      → IsSound c (dictated_long k c heap q text s)
  unfolding dictated_long
  dictated_long-IsSound text s p v =
      let w : IsKept k c heap q (discard_current k c heap q s) = discard_current-IsKept s v in
      announce-IsSound k c heap q _ (record {
        listed_in = w.listed_in;
        roomy = tt;
        ready = refl;
        listing_busy = w.listing_busy;
        drafting_busy = sym (ap (λ n. not (n == 0)) (draft_pending-discard_current s ∙ p));
      })

  dictate-IsSound :
      (o : Option (List ℕ)) (s : Compose L) → IsSound c s → IsSound c (dictate k c heap q o s).1
  unfolding dictate cancel_draft
  dictate-IsSound none s v = v
  dictate-IsSound (some text) s v =
      let s' : Compose L = record (cancel_draft k c heap q s) { dictated = none } in
      let w : IsKept k c heap q s' = record {
        listed_in = v.listed_in;
        listing_busy = v.listing_busy;
      } in
      Result-if (not s.is_shown || length text == 0) (false, s) _ v
        (Result-if (ltb draft_limit (length text)) _ _ (dictated_long-IsSound text s' refl w) (
          Result-if (not (heap (length text))) _ _
            (announce-IsSound k c heap q _ (record {
              listed_in = v.listed_in;
              roomy = v.roomy;
              ready = refl;
              listing_busy = v.listing_busy;
              drafting_busy = refl;
            }))
            (request_draft-IsSound k c heap q _ _
              (record { listed_in = v.listed_in; listing_busy = v.listing_busy }))))

  drop_draft-IsSound : (s : Compose L) → IsKept k c heap q s → IsSound c (drop_draft k c heap q s)
  unfolding drop_draft free_draft cancel_draft
  drop_draft-IsSound s v =
      let s' : Compose L = cancel_draft k c heap q s in
      let w : IsKept k c heap q (discard_current k c heap q s') =
        discard_current-IsKept s'
          (record { listed_in = v.listed_in; listing_busy = v.listing_busy }) in
      record {
        listed_in = w.listed_in;
        roomy = tt;
        ready = refl;
        listing_busy = w.listing_busy;
        drafting_busy = sym (ap (λ n. not (n == 0)) (draft_pending-discard_current s'));
      }

  close-IsSound :
      (keep_draft : Bool) (s : Compose L) → IsSound c s → IsSound c (close k c heap q keep_draft s)
  unfolding close free_previews cancel_templates free_draft cancel_draft drop_draft
  close-IsSound true s v = record {
    listed_in = refl;
    roomy = tt;
    ready = refl;
    listing_busy = refl;
    drafting_busy = refl;
  }
  close-IsSound false s v =
      let s' : Compose L = cancel_draft k c heap q (cancel_templates k c heap q s) in
      record {
        listed_in = refl;
        roomy = tt;
        ready = refl;
        listing_busy = sym (ap (λ n. not (n == 0)) (templates_pending-discard_current s'));
        drafting_busy = sym (ap (λ n. not (n == 0)) (draft_pending-discard_current s'));
      }

  open_target-IsSound :
      (o : Option ComposeTarget) (s : Compose L)
      → IsSound c s
      → IsSound c (open_target k c heap q o s).1
  unfolding open_target
  open_target-IsSound none s v = v
  open_target-IsSound (some target) s v =
      let w : IsSound c (close k c heap q false s) = close-IsSound false s v in
      Result-if (not (is_set target.send.account) || not (is_set target.send.chat)) (false, s) _ v
        (load_templates-IsSound k c heap q false _ (record {
          listed_in = w.listed_in;
          roomy = w.roomy;
          ready = w.ready;
          listing_busy = w.listing_busy;
          drafting_busy = w.drafting_busy;
        }))

  after-IsSound : (e : Event) (s : Compose L) → IsSound c s → IsSound c (after e s)
  unfolding after
  after-IsSound (opens target) s v = open_target-IsSound target s v
  after-IsSound (loads again) s v = load_templates-IsSound k c heap q again s v
  after-IsSound (picks index) s v = pick-IsSound index s v
  after-IsSound (dictates text) s v = dictate-IsSound text s v
  after-IsSound drops s v = drop_draft-IsSound s (IsSound-IsKept s v)
  after-IsSound (closes keep_draft) s v = close-IsSound keep_draft s v
  after-IsSound (templates_come n r) s v = templates_done-IsSound k c heap q (suc n) r s v
  after-IsSound (draft_comes n r) s v = draft_done-IsSound k c heap q n r s v

  run-IsSound_from : (es : List Event) (s : Compose L) → IsSound c s → IsSound c (run es s)
  unfolding run
  run-IsSound_from [] s v = v
  run-IsSound_from (e ∷ es) s v = run-IsSound_from es (after e s) (after-IsSound e s v)

  -- The composition after the events.
  unfoldable pub composed : L → List Event → Compose L
  composed requests es = run es (init k c heap q requests)

  -- From `tb_compose_init` on, after any calls and answers in any order, every template that is counted
  -- has its row in the block of the previews, the text stays within its block, a draft that is ready and
  -- not too long has its number and its text, and templates or a draft are on their way just when their
  -- answer is awaited.
  pub composed-IsSound : (requests : L) (es : List Event) → IsSound c (composed requests es)
  unfolding composed init
  composed-IsSound requests es = run-IsSound_from es _ (record {
    listed_in = refl;
    roomy = tt;
    ready = refl;
    listing_busy = refl;
    drafting_busy = refl;
  })
