-- ===== src/Compose/Sound.antt =====
-- The invariant of a composition, and that the records of an answer keep it.
use tele_bezel.Base.{
  ℕ, zero, suc, ◌+◌, ◌-◌, ◌*◌, ◌≤◌, ◌<◌, ◌≡◌, refl, ap, subst, ◌∙◌, inl, inr, Bool, true, false,
  not, ◌&&◌, ◌||◌, Option, none, some, List, ◌++◌, leb, ◌==◌, arith, if◌then◌else◌, length, take,
  min, length-set, length-append, length-take, Bool-cases,
}
use tele_bezel.Codec.{Span, Frame, cursor_init, decode}
use tele_bezel.Codec.Layouts.{
  TemplatesRecord, TemplateRecord, DraftRecord, layout_templates, layout_template, layout_draft,
  layout_text,
}
use tele_bezel.Codec.Frames.{for_records-keeps, loop_fuel}
use tele_bezel.Text.{utf8_fit, copy_span}
use tele_bezel.Text.Utf8.{utf8_fit_bounds}
use tele_bezel.Compose.{
  Codes, Config, Compose, Draft, drafting, is_listing, is_drafting, is_drafted,
}
use tele_bezel.Compose.Parts.{
  no_span, no_templates, no_template, draft_record, blank_rows, write_preview, kept_bytes,
  free_previews, with_header, with_template, add_template, take_listed, with_draft, with_text,
  add_text, take_drafted, walk,
}
use tele_bezel.Compose.Calls.{is_null}

-- There are as many rows as templates are kept, and a row for every template that is counted.
abbrev pub IsListed : Config → Option (List (List ℕ)) → ℕ → ℕ → Type 0
IsListed c none count total = count ≡ 0
IsListed c (some rows) count total = (length rows ≡ min total c.capacity) × (count ≤ length rows)

-- The text leaves room in its block of four bytes more than are kept.
abbrev pub IsRoomy : Config → ℕ → Option (List ℕ) → Type 0
IsRoomy c bytes none = Unit
IsRoomy c bytes (some text) = length text + 1 < kept_bytes c bytes + 4

-- A draft that is ready and not too long has its number and its text.
abbrev pub IsReady : Draft → Bool → ℕ → Option (List ℕ) → Type 0
IsReady draft too_long id text =
    (is_drafted draft && not too_long && (id == 0 || is_null text)) ≡ false

pub record IsSound {L : Type 0} (c : Config) (s : Compose L) : Type 0 where
  pub listed_in : IsListed c s.previews s.template_count s.template_total
  pub roomy : IsRoomy c s.draft_bytes s.text
  pub ready : IsReady s.draft s.too_long s.draft_id s.text
  pub listing_busy : is_listing s.templates ≡ not (s.templates_pending == 0)
  pub drafting_busy : is_drafting s.draft ≡ not (s.draft_pending == 0)

length-blank_rows : (n : ℕ) → length (blank_rows n) ≡ n
length-blank_rows zero = refl
length-blank_rows (suc n) = ap suc (length-blank_rows n)

length-write_preview :
    (rows : List (List ℕ)) (i : ℕ) (o : Option (List ℕ))
    → length (write_preview rows i o) ≡ length rows
length-write_preview rows i none = refl
length-write_preview rows i (some row) = length-set rows i row

pub not_ready :
    (draft : Draft) (too_long : Bool) (id : ℕ) (text : Option (List ℕ))
    → draft ≡ drafting
    → IsReady draft too_long id text
not_ready draft too_long id text e =
    ap (λ d. is_drafted d && not too_long && (id == 0 || is_null text)) e

module _ {L : Type 0} (k : Codes) (c : Config) (heap : ℕ → Bool) where
  pub IsSound-if :
      (b : Bool) (x y : Compose L) → IsSound c x → IsSound c y → IsSound c (if b then x else y)
  IsSound-if true x y v w = v
  IsSound-if false x y v w = w

  with_header-IsSound :
      (r : TemplatesRecord) (s : Compose L) → IsSound c s → IsSound c (with_header k c heap r s)
  unfolding with_header free_previews
  with_header-IsSound r s v =
      let n : ℕ = min r.count c.capacity in
      record {
        listed_in = elim (Bool-cases (not (n == 0) && heap (n * c.preview_limit))) [
          | inl e ↦ rw e (length-blank_rows n, omega arith)
          | inr e ↦ rw e refl
        ];
        roomy = v.roomy;
        ready = v.ready;
        listing_busy = v.listing_busy;
        drafting_busy = v.drafting_busy;
      }

  with_template-IsSound :
      (r : TemplateRecord) (rows : List (List ℕ)) (s : Compose L)
      → IsListed c (some rows) s.template_count s.template_total
      → IsSound c s
      → IsSound c (with_template k c heap r rows s)
  unfolding with_template
  with_template-IsSound r rows s (l, n) v =
      elim (Bool-cases (leb c.capacity r.index || leb s.template_total r.index)) [
        | inl e ↦ rw e v
        | inr e ↦ rw e (record {
          listed_in = (
            length-write_preview rows r.index (copy_span c.preview_limit r.preview) ∙ l,
            ground (arith, length-write_preview rows r.index (copy_span c.preview_limit r.preview)),
          );
          roomy = v.roomy;
          ready = v.ready;
          listing_busy = v.listing_busy;
          drafting_busy = v.drafting_busy;
        })
      ]

  add_template-IsSound :
      (ok : Bool) (r : TemplateRecord) (o : Option (List (List ℕ))) (s : Compose L)
      → s.previews ≡ o
      → IsSound c s
      → IsSound c (add_template k c heap ok r o s)
  unfolding add_template
  add_template-IsSound ok r none s e v = v
  add_template-IsSound ok r (some rows) s e v =
      IsSound-if ok _ s
        (with_template-IsSound r rows s
          (subst (λ o. IsListed c o s.template_count s.template_total) e v.listed_in) v)
        v

  pub take_listed-IsSound :
      (f : Frame) (s : Compose L) → IsSound c s → IsSound c (take_listed k c heap f s).1
  unfolding take_listed
  take_listed-IsSound f s v =
      let (header_ok, header, header_body) = decode f.body layout_templates no_templates in
      let (item_ok, item, item_body) = decode f.body layout_template no_template in
      IsSound-if (f.type == k.record_templates) _ _
        (IsSound-if header_ok _ s (with_header-IsSound header s v) v)
        (IsSound-if (f.type == k.record_template) _ s
          (add_template-IsSound item_ok item s.previews s refl v) v)

  -- The invariant while a draft is on its way.
  pub record IsDrafting (s : Compose L) : Type 0 where
    pub sound : IsSound c s
    pub drafting_now : s.draft ≡ drafting

  with_draft-IsDrafting :
      (r : DraftRecord) (s : Compose L) → IsDrafting s → IsDrafting (with_draft k c heap r s)
  unfolding with_draft
  with_draft-IsDrafting r s v = record {
    sound = record {
      listed_in = v.sound.listed_in;
      roomy = elim (Bool-cases (heap (kept_bytes c r.bytes + 4))) [
        | inl e ↦ rw e (omega arith)
        | inr e ↦ rw e tt
      ];
      ready = not_ready s.draft _ _ _ v.drafting_now;
      listing_busy = v.sound.listing_busy;
      drafting_busy = v.sound.drafting_busy;
    };
    drafting_now = v.drafting_now;
  }

  with_text-IsDrafting :
      (part : Span) (text : List ℕ) (s : Compose L)
      → IsRoomy c s.draft_bytes (some text)
      → IsDrafting s
      → IsDrafting (with_text k c heap part text s)
  unfolding with_text
  with_text-IsDrafting part text s h v =
      let room : ℕ = kept_bytes c s.draft_bytes + 3 - length text in
      let n : ℕ = utf8_fit (some part.bytes) part.length room in
      let fits : n < room = (utf8_fit_bounds part.bytes part.length room (omega arith)).1 in
      record {
        sound = record {
          listed_in = v.sound.listed_in;
          roomy = omega (arith, length-append text (take n part.bytes), length-take n part.bytes);
          ready =
              not_ready s.draft s.too_long s.draft_id (some (text ++ take n part.bytes))
                v.drafting_now;
          listing_busy = v.sound.listing_busy;
          drafting_busy = v.sound.drafting_busy;
        };
        drafting_now = v.drafting_now;
      }

  IsDrafting-if :
      (b : Bool) (x y : Compose L) → IsDrafting x → IsDrafting y → IsDrafting (if b then x else y)
  IsDrafting-if true x y v w = v
  IsDrafting-if false x y v w = w

  add_text-IsDrafting :
      (ok : Bool) (part : Span) (o : Option (List ℕ)) (s : Compose L)
      → s.text ≡ o
      → IsDrafting s
      → IsDrafting (add_text k c heap ok part o s)
  unfolding add_text
  add_text-IsDrafting ok part none s e v = v
  add_text-IsDrafting ok part (some text) s e v =
      IsDrafting-if ok _ s
        (with_text-IsDrafting part text s (subst (IsRoomy c s.draft_bytes) e v.sound.roomy) v) v

  pub take_drafted-IsDrafting :
      (f : Frame) (s : Compose L) → IsDrafting s → IsDrafting (take_drafted k c heap f s).1
  unfolding take_drafted
  take_drafted-IsDrafting f s v =
      let (draft_ok, draft, draft_body) = decode f.body layout_draft draft_record in
      let (text_ok, part, text_body) = decode f.body layout_text no_span in
      IsDrafting-if (f.type == k.record_draft) _ _
        (IsDrafting-if draft_ok _ s (with_draft-IsDrafting draft s v) v)
        (IsDrafting-if (f.type == k.record_text) _ s
          (add_text-IsDrafting text_ok part s.text s refl v) v)

  -- The loops over the records of an answer.
  pub walk-keeps :
      (P : Compose L → Type 0) (body : Frame → Compose L → Bool × Compose L)
      → ((f : Frame) (s : Compose L) → P s → P (body f s).1)
      → (payload : List ℕ) (s : Compose L) → P s
      → P (walk k c heap body payload s)
  walk-keeps P body step payload s v =
      for_records-keeps P body step (loop_fuel (length payload))
        (cursor_init (some payload) (length payload)) s v
