-- ===== src/Compose.antt =====
-- app/src/c/compose.c and compose.h: the templates of an account and the draft that is being made from
-- a template or from dictation. This module has the types.
pub mod Parts
pub mod Calls
pub mod Sound
pub mod Answers
pub mod Reached
use tele_bezel.Base.{
  ℕ, ◌+◌, Bool, true, false, Option, none, some, List, [], ◌∷◌, leb, ltb, if◌then◌else◌, min,
}
use tele_bezel.Base.Int.{ℤ}
use tele_bezel.Text.{is_continuation}
use tele_bezel.Errors.{Results}
use tele_bezel.Sending.{Target}

-- The constants of the protocol, which are in a file that the build generates.
pub record Codes : Type 0 where
  pub results : Results
  pub cursor_lost : ℕ
  pub request_templates : ℕ
  pub request_draft : ℕ
  pub request_discard : ℕ
  pub record_templates : ℕ
  pub record_template : ℕ
  pub record_draft : ℕ
  pub record_text : ℕ
  pub page_first : ℕ
  pub page_refresh : ℕ
  pub flag_too_long : ℕ

-- `TbTemplatesState`
pub data Listing : Type 0 where
  unlisted listing listed failed : Listing

-- `TbDraftState`
pub data Draft : Type 0 where
  no_draft drafting drafted spoiled : Draft

abbrev pub is_listing : Listing → Bool
is_listing listing = true
is_listing _ = false

abbrev pub is_drafting : Draft → Bool
is_drafting drafting = true
is_drafting _ = false

abbrev pub is_drafted : Draft → Bool
is_drafted drafted = true
is_drafted _ = false

-- `TbComposeTarget`
pub record ComposeTarget : Type 0 where
  pub send : Target
  pub account_name : List ℕ
  pub chat_title : List ℕ
  pub reply_sender : List ℕ
  pub reply_text : List ℕ

-- `TbComposeConfig`
pub record Config : Type 0 where
  pub capacity : ℕ
  pub preview_limit : ℕ
  pub text_limit : ℕ
  pub timeout : ℕ

-- `TbCompose`, over a request layer `L`; `changes` counts the calls of the port. The block of the
-- previews is its rows, and a string comes with its length.
pub record Compose (L : Type 0) : Type 0 where
  pub requests : L
  pub target : ComposeTarget
  pub is_shown : Bool
  pub templates : Listing
  pub templates_stale : Bool
  pub templates_error : ℤ
  pub templates_rev : ℕ
  pub template_count : ℕ
  pub template_total : ℕ
  pub previews : Option (List (List ℕ))
  pub templates_pending : ℕ
  pub draft : Draft
  pub draft_error : ℤ
  pub draft_id : ℕ
  pub draft_bytes : ℕ
  pub draft_units : ℕ
  pub too_long : Bool
  pub text : Option (List ℕ)
  pub dictated : Option (List ℕ)
  pub draft_pending : ℕ
  pub revision : ℕ
  pub changes : ℕ

-- The loop of `tb_utf8_units`; a text is short of 2 ^ 31 bytes, so `units` does not wrap.
unfoldable pub units_from : List ℕ → ℕ → ℕ
units_from [] units = units
units_from (byte ∷ bytes) units =
    units_from bytes
      (if is_continuation byte then units else if leb 240 byte then units + 2 else units + 1)

-- `tb_utf8_units`
unfoldable pub utf8_units : List ℕ → ℕ
utf8_units text = min (units_from text 0) 65535
