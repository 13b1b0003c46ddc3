-- ===== src/Compose/Parts.antt =====
-- The records that an answer brings: the loops of `templates_done` and `draft_done` of compose.c. `heap`
-- says whether the heap grants a block of so many bytes.
use tele_bezel.Base.{
  ℕ, zero, suc, ◌+◌, ◌-◌, ◌*◌, Bool, true, not, ◌&&◌, ◌||◌, Option, none, some, List, [], ◌∷◌, ◌++◌,
  ltb, leb, ◌==◌, if◌then◌else◌, length, take, set, min, bit_and,
}
use tele_bezel.Codec.{Span, Frame, cursor_init, decode}
use tele_bezel.Codec.Layouts.{
  TemplatesRecord, TemplateRecord, DraftRecord, layout_templates, layout_template, layout_draft,
  layout_text,
}
use tele_bezel.Codec.Frames.{for_records, left, loop_fuel}
use tele_bezel.Text.{utf8_fit, copy_span}
use tele_bezel.Compose.{Codes, Config, Compose}

-- What an uninitialised record holds does not matter (Codec/Complete).
abbrev pub no_span : Span
no_span = record { bytes = []; length = 0 }

abbrev pub no_templates : TemplatesRecord
no_templates = record { revision = 0; count = 0; flags = 0 }

abbrev pub no_template : TemplateRecord
no_template = record { index = 0; length = 0; preview = no_span }

abbrev pub draft_record : DraftRecord
draft_record = record { id = 0; bytes = 0; units = 0; flags = 0 }

-- The rows of a block that `calloc` cleared.
abbrev pub blank_rows : ℕ → List (List ℕ)
blank_rows zero = []
blank_rows (suc n) = [] ∷ blank_rows n

-- The row at the index is written, where there is room for one byte at least.
abbrev pub write_preview : List (List ℕ) → ℕ → Option (List ℕ) → List (List ℕ)
write_preview rows i none = rows
write_preview rows i (some row) = set rows i row

-- The bytes of a draft that are kept.
abbrev pub kept_bytes : Config → ℕ → ℕ
kept_bytes c bytes = min bytes c.text_limit

module _ {L : Type 0} (k : Codes) (c : Config) (heap : ℕ → Bool) where
  -- `free_previews`
  unfoldable pub free_previews : Compose L → Compose L
  free_previews s = record s { previews = none; template_count = 0; template_total = 0 }

  -- The part of the loop for the header of the templates.
  unfoldable pub with_header : TemplatesRecord → Compose L → Compose L
  with_header r s =
      let rows = min r.count c.capacity in
      record (free_previews s) {
        templates_rev = r.revision;
        templates_stale = not (bit_and r.flags 1 == 0);
        template_total = r.count;
        previews =
            if not (rows == 0) && heap (rows * c.preview_limit)
            then some (blank_rows rows)
            else none;
      }

  -- The part for a template, with the rows of the previews.
  unfoldable pub with_template : TemplateRecord → List (List ℕ) → Compose L → Compose L
  with_template r rows s =
      if leb c.capacity r.index || leb s.template_total r.index then s else record s {
        previews = some (write_preview rows r.index (copy_span c.preview_limit r.preview));
        template_count =
            if ltb s.template_count (r.index + 1) then r.index + 1 else s.template_count;
      }

  unfoldable pub add_template :
      Bool → TemplateRecord → Option (List (List ℕ)) → Compose L → Compose L
  add_template ok r none s = s
  add_template ok r (some rows) s = if ok then with_template r rows s else s

  -- The body of the loop of `templates_done`, which only a frame that is cut off ends.
  unfoldable pub take_listed : Frame → Compose L → Bool × Compose L
  take_listed f s =
      let (header_ok, header, header_body) = decode f.body layout_templates no_templates in
      let (item_ok, item, item_body) = decode f.body layout_template no_template in
      (
        true,
        if f.type == k.record_templates
            then if header_ok then with_header header s else s
            else if f.type == k.record_template
            then add_template item_ok item s.previews s
            else s,
      )

  -- The part of the loop of `draft_done` for the draft.
  unfoldable pub with_draft : DraftRecord → Compose L → Compose L
  with_draft r s = record s {
    draft_id = r.id;
    draft_bytes = r.bytes;
    draft_units = r.units;
    too_long = not (bit_and r.flags k.flag_too_long == 0);
    text = if heap (kept_bytes c r.bytes + 4) then some [] else none;
  }

  -- The part for a piece of the text, which follows the text that is there.
  unfoldable pub with_text : Span → List ℕ → Compose L → Compose L
  with_text part text s =
      let room = kept_bytes c s.draft_bytes + 3 - length text in
      record s {
        text = some (text ++ take (utf8_fit (some part.bytes) part.length room) part.bytes);
      }

  unfoldable pub add_text : Bool → Span → Option (List ℕ) → Compose L → Compose L
  add_text ok part none s = s
  add_text ok part (some text) s = if ok then with_text part text s else s

  -- The body of the loop of `draft_done`.
  unfoldable pub take_drafted : Frame → Compose L → Bool × Compose L
  take_drafted f s =
      let (draft_ok, draft, draft_body) = decode f.body layout_draft draft_record in
      let (text_ok, part, text_body) = decode f.body layout_text no_span in
      (
        true,
        if f.type == k.record_draft
            then if draft_ok then with_draft draft s else s
            else if f.type == k.record_text
            then add_text text_ok part s.text s
            else s,
      )

  -- The loop over the records of an answer.
  abbrev pub walk : (Frame → Compose L → Bool × Compose L) → List ℕ → Compose L → Compose L
  walk body payload s = left (
      for_records body (loop_fuel (length payload)) (cursor_init (some payload) (length payload)) s)
