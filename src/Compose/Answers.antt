-- ===== src/Compose/Answers.antt =====
-- The answers of the request layer and the requests keep the invariant of a composition.
use tele_bezel.Base.{
  ℕ, suc, ◌≡◌, refl, sym, ap, subst, ◌∙◌, inl, inr, Bool, true, false, not, ◌||◌, none, ◌==◌, arith,
  if◌then◌else◌, Bool-cases,
}
use tele_bezel.Base.Int.{ℤ}
use tele_bezel.Requests.Layer.{Response, RequestArgs}
use tele_bezel.Errors.{is_code, error_from_response}
use tele_bezel.Sending.{Requests}
use tele_bezel.Sending.Calls.{is_response, is_cancelled}
use tele_bezel.Compose.{
  Codes, Config, Compose, listing, Draft, no_draft, drafting, drafted, spoiled, is_listing,
  is_drafting,
}
use tele_bezel.Compose.Parts.{take_listed, take_drafted, walk}
use tele_bezel.Compose.Calls.{
  announce, cancel_templates, cancel_draft, fallback, asked, load_templates, ended_early,
  templates_done, drafted_whole, draft_done, discard_current, draft_asked, request_draft, is_null,
}
use tele_bezel.Compose.Sound.{
  IsSound, IsSound-if, IsListed, IsRoomy, IsReady, IsDrafting, not_ready, take_listed-IsSound,
  take_drafted-IsDrafting, walk-keeps,
}

module _ {L : Type 0} (k : Codes) (c : Config) (heap : ℕ → Bool) (q : Requests L) where
  -- The parts of the invariant that the request for the templates leaves alone, and those that the
  -- request for a draft does.
  pub record IsHeld (s : Compose L) : Type 0 where
    pub listed_in : IsListed c s.previews s.template_count s.template_total
    pub roomy : IsRoomy c s.draft_bytes s.text
    pub ready : IsReady s.draft s.too_long s.draft_id s.text
    pub drafting_busy : is_drafting s.draft ≡ not (s.draft_pending == 0)

  pub record IsKept (s : Compose L) : Type 0 where
    pub listed_in : IsListed c s.previews s.template_count s.template_total
    pub listing_busy : is_listing s.templates ≡ not (s.templates_pending == 0)

  pub announce-IsSound : (s : Compose L) → IsSound c s → IsSound c (announce k c heap q s)
  unfolding announce
  announce-IsSound s v = record {
    listed_in = v.listed_in;
    roomy = v.roomy;
    ready = v.ready;
    listing_busy = v.listing_busy;
    drafting_busy = v.drafting_busy;
  }

  is_listing-fallback : (s : Compose L) → is_listing (fallback k c heap q s) ≡ false
  is_listing-fallback s = ground arith

  asked-IsSound :
      (s : Compose L) → s.templates ≡ listing → IsHeld s → IsSound c (asked k c heap q s)
  unfolding asked
  asked-IsSound s t v = elim (Bool-cases (s.templates_pending == 0)) [
    | inl e ↦
        rw (e, asked)
          (record {
            listed_in = v.listed_in;
            roomy = v.roomy;
            ready = v.ready;
            listing_busy = is_listing-fallback s ∙ sym (ap not e);
            drafting_busy = v.drafting_busy;
          })
    | inr e ↦
        rw (e, asked)
          (record {
            listed_in = v.listed_in;
            roomy = v.roomy;
            ready = v.ready;
            listing_busy = ap is_listing t ∙ sym (ap not e);
            drafting_busy = v.drafting_busy;
          })
  ]

  pub load_templates-IsSound :
      (again : Bool) (s : Compose L) → IsSound c s → IsSound c (load_templates k c heap q again s)
  unfolding load_templates cancel_templates
  load_templates-IsSound again s v = IsSound-if k c heap (not s.is_shown) s _ v (
      announce-IsSound _ (
        asked-IsSound _ refl (record {
          listed_in = v.listed_in;
          roomy = v.roomy;
          ready = v.ready;
          drafting_busy = v.drafting_busy;
        })))

  -- The end of a request for the templates that brought none.
  ended-IsSound :
      (sequence : ℕ) (r : Response) (s : Compose L)
      → IsSound c s
      → IsSound c (record (ended_early k c heap q sequence r (record s { templates_pending = 0 })) {
        templates_error = error_from_response k.results r;
        templates = fallback k c heap q s;
        templates_stale = not (s.template_count == 0);
      })
  ended-IsSound sequence r s v = elim (Bool-cases r.final) [
    | inl e ↦ rw e (record {
      listed_in = v.listed_in;
      roomy = v.roomy;
      ready = v.ready;
      listing_busy = is_listing-fallback s;
      drafting_busy = v.drafting_busy;
    })
    | inr e ↦ rw e (record {
      listed_in = v.listed_in;
      roomy = v.roomy;
      ready = v.ready;
      listing_busy = is_listing-fallback s;
      drafting_busy = v.drafting_busy;
    })
  ]

  pub templates_done-IsSound :
      (sequence : ℕ) (r : Response) (s : Compose L)
      → IsSound c s
      → IsSound c (templates_done k c heap q sequence r s)
  unfolding templates_done
  templates_done-IsSound sequence r s v =
      let walked : Compose L = walk k c heap (take_listed k c heap) r.payload s in
      let w : IsSound c walked =
        walk-keeps k c heap (IsSound c) (take_listed k c heap) (take_listed-IsSound k c heap)
          r.payload s v in
      IsSound-if k c heap (not (sequence == s.templates_pending) || is_cancelled r.outcome) s _ v (
        IsSound-if k c heap (not (is_response r.outcome) || not (is_code r.result k.results.ok)) _ _
          (announce-IsSound _ (ended-IsSound sequence r s v))
          (IsSound-if k c heap r.final _ walked
            (announce-IsSound _ (record {
              listed_in = w.listed_in;
              roomy = w.roomy;
              ready = w.ready;
              listing_busy = refl;
              drafting_busy = w.drafting_busy;
            }))
            w))

  drafted_whole-IsSound : (s : Compose L) → IsSound c s → IsSound c (drafted_whole k c heap q s)
  unfolding drafted_whole
  drafted_whole-IsSound s v =
      announce-IsSound _ (elim (Bool-cases (s.draft_id == 0 || is_null s.text)) [
        | inl e ↦ rw e (record {
          listed_in = v.listed_in;
          roomy = v.roomy;
          ready = refl;
          listing_busy = v.listing_busy;
          drafting_busy = refl;
        })
        | inr e ↦ rw e (record {
          listed_in = v.listed_in;
          roomy = v.roomy;
          ready = ground arith;
          listing_busy = v.listing_busy;
          drafting_busy = refl;
        })
      ])

  drafting_of : (d : Draft) → is_drafting d ≡ true → d ≡ drafting
  drafting_of drafting e = refl
  drafting_of no_draft e = absurd (ground arith)
  drafting_of drafted e = absurd (ground arith)
  drafting_of spoiled e = absurd (ground arith)

  -- The answer to the request that is awaited finds the draft on its way.
  awaited :
      (n : ℕ) (r : Response) (s : Compose L)
      → (not (suc n == s.draft_pending) || is_cancelled r.outcome) ≡ false
      → IsSound c s
      → IsDrafting k c heap s
  awaited n r s e v =
      let set : (s.draft_pending == 0) ≡ false = ground arith in
      record { sound = v; drafting_now = drafting_of s.draft (v.drafting_busy ∙ ap not set) }

  lost-IsSound :
      (n : ℕ) (error : ℤ) (r : Response) (s : Compose L)
      → IsSound c s
      → IsSound c (record (ended_early k c heap q n r (record s { draft_pending = 0 })) {
        draft_error = error;
        draft = spoiled;
        text = none;
      })
  lost-IsSound n error r s v = elim (Bool-cases r.final) [
    | inl e ↦ rw e (record {
      listed_in = v.listed_in;
      roomy = tt;
      ready = refl;
      listing_busy = v.listing_busy;
      drafting_busy = refl;
    })
    | inr e ↦ rw e (record {
      listed_in = v.listed_in;
      roomy = tt;
      ready = refl;
      listing_busy = v.listing_busy;
      drafting_busy = refl;
    })
  ]

  answered-IsSound :
      (n : ℕ) (r : Response) (s : Compose L)
      → IsDrafting k c heap s
      → IsSound c (
          let error = error_from_response k.results r in
          let s' = record (ended_early k c heap q n r (record s { draft_pending = 0 })) {
            draft_error = error;
            draft = spoiled;
            text = none;
          } in
          let walked = walk k c heap (take_drafted k c heap) r.payload s in
          if not (is_response r.outcome) || not (is_code r.result k.results.ok)
          then announce k c heap q
              (if is_code error k.cursor_lost then load_templates k c heap q true s' else s')
          else if r.final
          then drafted_whole k c heap q walked
          else walked)
  answered-IsSound n r s d =
      let walked : Compose L = walk k c heap (take_drafted k c heap) r.payload s in
      let w : IsSound c walked =
        (walk-keeps k c heap (IsDrafting k c heap) (take_drafted k c heap)
          (take_drafted-IsDrafting k c heap) r.payload s d).sound in
      let error : ℤ = error_from_response k.results r in
      let l = lost-IsSound n error r s d.sound in
      IsSound-if k c heap (not (is_response r.outcome) || not (is_code r.result k.results.ok)) _ _
        (announce-IsSound _ (
          IsSound-if k c heap (is_code error k.cursor_lost) _ _ (load_templates-IsSound true _ l)
            l))
        (IsSound-if k c heap r.final _ walked (drafted_whole-IsSound walked w) w)

  pub draft_done-IsSound :
      (n : ℕ) (r : Response) (s : Compose L)
      → IsSound c s
      → IsSound c (draft_done k c heap q (suc n) r s)
  unfolding draft_done
  draft_done-IsSound n r s v =
      elim (Bool-cases (not (suc n == s.draft_pending) || is_cancelled r.outcome)) [
        | inl e ↦ rw (e, draft_done) v
        | inr e ↦ rw (e, draft_done) (answered-IsSound (suc n) r s (awaited n r s e v))
      ]

  -- What `cancel` and `discard_current` leave alone.
  pub discarded-IsKept :
      (s : Compose L) → IsKept s → IsKept (discard_current k c heap q (cancel_draft k c heap q s))
  unfolding discard_current cancel_draft
  discarded-IsKept s v = elim (Bool-cases (s.draft_id == 0)) [
    | inl e ↦
        rw (e, discard_current) (record { listed_in = v.listed_in; listing_busy = v.listing_busy })
    | inr e ↦
        rw (e, discard_current) (record { listed_in = v.listed_in; listing_busy = v.listing_busy })
  ]

  draft_asked-IsSound :
      (s : Compose L)
      → s.draft ≡ drafting
      → s.text ≡ none
      → IsKept s
      → IsSound c (draft_asked k c heap q s)
  unfolding draft_asked
  draft_asked-IsSound s d t v =
      let roomy : IsRoomy c s.draft_bytes s.text = subst (IsRoomy c s.draft_bytes) (sym t) tt in
      elim (Bool-cases (s.draft_pending == 0)) [
        | inl e ↦
            rw (e, draft_asked)
              (record {
                listed_in = v.listed_in;
                roomy = roomy;
                ready = refl;
                listing_busy = v.listing_busy;
                drafting_busy = sym (ap not e);
              })
        | inr e ↦
            rw (e, draft_asked)
              (record {
                listed_in = v.listed_in;
                roomy = roomy;
                ready = not_ready s.draft s.too_long s.draft_id s.text d;
                listing_busy = v.listing_busy;
                drafting_busy = ap is_drafting d ∙ sym (ap not e);
              })
      ]

  pub request_draft-IsSound :
      (args : RequestArgs) (s : Compose L) → IsKept s → IsSound c (request_draft k c heap q args s)
  unfolding request_draft
  request_draft-IsSound args s v =
      let w : IsKept (discard_current k c heap q (cancel_draft k c heap q s)) =
        discarded-IsKept s v in
      announce-IsSound _ (
        draft_asked-IsSound _ refl refl
          (record { listed_in = w.listed_in; listing_busy = w.listing_busy }))
