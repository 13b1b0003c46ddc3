-- ===== src/Compose/Calls.antt =====
-- The functions of compose.h and the answers of the request layer. As for the other clients of the
-- layer, a submit or a cancel calls no callback that acts on the state.
use tele_bezel.Base.{
  ℕ, ◌+◌, Bool, true, false, not, ◌&&◌, ◌||◌, Option, none, some, List, [], ◌∷◌, ltb, leb, ◌==◌,
  if◌then◌else◌, length, take, get_or, min, ◌-◌, add32,
}
use tele_bezel.Base.Int.{pos}
use tele_bezel.Requests.Layer.{Response, RequestArgs, no_args}
use tele_bezel.Errors.{is_code, error_none, error_from_outcome, error_from_response}
use tele_bezel.Sending.{Requests}
use tele_bezel.Sending.Calls.{is_response, is_cancelled}
use tele_bezel.Compose.{
  Codes, Config, Compose, ComposeTarget, Listing, unlisted, listing, listed, failed, no_draft,
  drafting, drafted, spoiled, is_drafted, utf8_units,
}
use tele_bezel.Compose.Parts.{free_previews, take_listed, take_drafted, walk}

-- `TB_ERROR_OUT_OF_MEMORY`
abbrev pub out_of_memory : ℕ
out_of_memory = 102

-- `TB_COMPOSE_DRAFT_LIMIT`
abbrev pub draft_limit : ℕ
draft_limit = 1024

abbrev pub is_null : Option (List ℕ) → Bool
is_null none = true
is_null (some bytes) = false

abbrev pub is_set : List ℕ → Bool
is_set [] = false
is_set (_ ∷ _) = true

-- A target after `memset`.
abbrev pub no_target : ComposeTarget
no_target = record {
  send = record { account = []; chat = []; reply = [] };
  account_name = [];
  chat_title = [];
  reply_sender = [];
  reply_text = [];
}

module _ {L : Type 0} (k : Codes) (c : Config) (heap : ℕ → Bool) (q : Requests L) where
  -- `changed`
  unfoldable pub announce : Compose L → Compose L
  announce s = record s { revision = add32 s.revision 1; changes = s.changes + 1 }

  -- `cancel` of `templates_pending`
  unfoldable pub cancel_templates : Compose L → Compose L
  cancel_templates s = record s {
    templates_pending = 0;
    requests =
        if s.templates_pending == 0 then s.requests else q.cancel s.requests s.templates_pending;
  }

  -- `cancel` of `draft_pending`
  unfoldable pub cancel_draft : Compose L → Compose L
  cancel_draft s = record s {
    draft_pending = 0;
    requests = if s.draft_pending == 0 then s.requests else q.cancel s.requests s.draft_pending;
  }

  -- `free_draft`
  unfoldable pub free_draft : Compose L → Compose L
  free_draft s = record s { text = none; dictated = none }

  -- `base_args`
  abbrev pub base_args : Compose L → ℕ → RequestArgs
  base_args s kind = record no_args {
    kind = kind;
    account = take 36 s.target.send.account;
    chat = take 20 s.target.send.chat;
    message = take 20 s.target.send.reply;
  }

  -- What shows when no templates come: those that are there, if any.
  abbrev pub fallback : Compose L → Listing
  fallback s = if s.template_count == 0 then failed else listed

  -- The end of `tb_compose_load_templates`, where the layer took the request or not.
  unfoldable pub asked : Compose L → Compose L
  asked s =
      if s.templates_pending == 0
      then record s {
        templates_error = error_from_outcome k.results (q.immediate s.requests);
        templates = fallback s;
      }
      else s

  -- `tb_compose_load_templates`
  unfoldable pub load_templates : Bool → Compose L → Compose L
  load_templates again s =
      let args = record (base_args s k.request_templates) {
        page_op = if again then k.page_refresh else k.page_first;
        text_limit = c.preview_limit - 1;
      } in
      let s' = cancel_templates s in
      let (requests, sequence) = q.submit s'.requests args c.timeout 2 false in
      if not s.is_shown
      then s
      else announce (
          asked
            (record s' { templates = listing; requests = requests; templates_pending = sequence }))

  abbrev pub ended_early : ℕ → Response → Compose L → Compose L
  ended_early sequence r s =
      if r.final then s else record s { requests = q.cancel s.requests sequence }

  -- `templates_done`
  unfoldable pub templates_done : ℕ → Response → Compose L → Compose L
  templates_done sequence r s =
      let s' = ended_early sequence r (record s { templates_pending = 0 }) in
      let walked = walk k c heap (take_listed k c heap) r.payload s in
      if not (sequence == s.templates_pending) || is_cancelled r.outcome
      then s
      else if not (is_response r.outcome) || not (is_code r.result k.results.ok)
      then announce (record s' {
        templates_error = error_from_response k.results r;
        templates = fallback s;
        templates_stale = not (s.template_count == 0);
      })
      else if r.final
      then announce (record walked {
        templates_pending = 0;
        templates_error = pos error_none;
        templates = listed;
      })
      else walked

  -- The end of `draft_done`, for the last chunk.
  unfoldable pub drafted_whole : Compose L → Compose L
  drafted_whole s =
      let s' = record s { draft_pending = 0; dictated = none } in
      announce (
        if s.draft_id == 0 || is_null s.text
        then record s' { draft = spoiled; draft_error = pos out_of_memory }
        else record s' { draft = drafted; draft_error = pos error_none })

  -- `draft_done`
  unfoldable pub draft_done : ℕ → Response → Compose L → Compose L
  draft_done sequence r s =
      let error = error_from_response k.results r in
      let s' = record (ended_early sequence r (record s { draft_pending = 0 })) {
        draft_error = error;
        draft = spoiled;
        text = none;
      } in
      let walked = walk k c heap (take_drafted k c heap) r.payload s in
      if not (sequence == s.draft_pending) || is_cancelled r.outcome
      then s
      else if not (is_response r.outcome) || not (is_code r.result k.results.ok)
      then announce (if is_code error k.cursor_lost then load_templates true s' else s')
      else if r.final
      then drafted_whole walked
      else walked

  -- `tb_compose_init`
  unfoldable pub init : L → Compose L
  init requests = record {
    requests = requests;
    target = no_target;
    is_shown = false;
    templates = unlisted;
    templates_stale = false;
    templates_error = pos 0;
    templates_rev = 0;
    template_count = 0;
    template_total = 0;
    previews = none;
    templates_pending = 0;
    draft = no_draft;
    draft_error = pos 0;
    draft_id = 0;
    draft_bytes = 0;
    draft_units = 0;
    too_long = false;
    text = none;
    dictated = none;
    draft_pending = 0;
    revision = 0;
    changes = 0;
  }

  -- `tb_compose_template`
  unfoldable pub template : ℕ → Compose L → List ℕ
  template index s = elim s.previews [
    | none ↦ []
    | some rows ↦ if leb s.template_count index then [] else get_or rows index []
  ]

  -- `discard_current`; nobody waits for the answer.
  unfoldable pub discard_current : Compose L → Compose L
  discard_current s =
      let args = record (base_args s k.request_discard) { draft_id = s.draft_id } in
      if s.draft_id == 0
      then s
      else record s { requests = (q.submit s.requests args c.timeout 1 false).0; draft_id = 0 }

  unfoldable pub draft_asked : Compose L → Compose L
  draft_asked s =
      if s.draft_pending == 0
      then record s {
        draft = spoiled;
        draft_error = error_from_outcome k.results (q.immediate s.requests);
      }
      else s

  -- `request_draft`, without its result, which is whether `draft_pending` is set
  unfoldable pub request_draft : RequestArgs → Compose L → Compose L
  request_draft args s =
      let s' = discard_current (cancel_draft s) in
      let (requests, sequence) =
        q.submit s'.requests (record args { text_limit = c.text_limit }) c.timeout 2 true in
      announce (
        draft_asked (record s' {
          text = none;
          too_long = false;
          draft = drafting;
          requests = requests;
          draft_pending = sequence;
        }))

  abbrev pub requested : Compose L → Bool × Compose L
  requested s = (not (s.draft_pending == 0), s)

  -- `tb_compose_pick`
  unfoldable pub pick : ℕ → Compose L → Bool × Compose L
  pick index s =
      if not s.is_shown || leb s.template_count index
      then (false, s)
      else requested (
          request_draft
            (record (base_args s k.request_draft) {
              template_index = index;
              templates_rev = s.templates_rev;
            })
            s)

  -- The part of `tb_compose_dictated` for a text above the limit.
  unfoldable pub dictated_long : List ℕ → Compose L → Compose L
  dictated_long text s = announce (record (discard_current s) {
    text = none;
    draft_bytes = min (length text) 65535;
    draft_units = utf8_units text;
    too_long = true;
    draft = drafted;
    draft_error = pos error_none;
  })

  -- `tb_compose_dictated`
  unfoldable pub dictate : Option (List ℕ) → Compose L → Bool × Compose L
  dictate none s = (false, s)
  dictate (some text) s =
      let s' = record (cancel_draft s) { dictated = none } in
      if not s.is_shown || length text == 0
      then (false, s)
      else if ltb draft_limit (length text)
      then (true, dictated_long text s')
      else if not (heap (length text))
      then (false, announce (record s' { draft = spoiled; draft_error = pos out_of_memory }))
      else requested (
          request_draft (record (base_args s k.request_draft) { payload = some text })
            (record s' { dictated = some text }))

  -- `tb_compose_sendable`
  unfoldable pub sendable : Compose L → Bool
  sendable s = s.is_shown && is_drafted s.draft && not (s.draft_id == 0) && not s.too_long

  -- `tb_compose_drop_draft`
  unfoldable pub drop_draft : Compose L → Compose L
  drop_draft s = record (free_draft (discard_current (cancel_draft s))) {
    too_long = false;
    draft = no_draft;
    draft_error = pos error_none;
  }

  -- `tb_compose_close`
  unfoldable pub close : Bool → Compose L → Compose L
  close keep_draft s =
      let s' = cancel_templates s in
      let s'' =
        if keep_draft
        then record (free_draft (cancel_draft s')) { draft_id = 0; draft = no_draft }
        else drop_draft s' in
      record (free_previews k c heap s'') {
        templates = unlisted;
        templates_stale = false;
        is_shown = false;
        target = no_target;
      }

  -- `tb_compose_open`
  unfoldable pub open_target : Option ComposeTarget → Compose L → Bool × Compose L
  open_target none s = (false, s)
  open_target (some target) s =
      if not (is_set target.send.account) || not (is_set target.send.chat) then (false, s) else (
        true,
        load_templates false (record (close false s) { target = target; is_shown = true }),
      )
