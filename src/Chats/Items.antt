-- ===== src/Chats/Items.antt =====
-- The chats that are held: `free_item`, `clear`, `append` and `parse` of chats.c. `heap` says whether
-- the heap grants a block for a string, by the state of the budget.
use tele_bezel.Base.{
  ℕ, Bool, true, false, not, ◌&&◌, ◌||◌, Option, none, some, List, [], ◌∷◌, ◌++◌, leb, ◌==◌,
  if◌then◌else◌, length, add32,
}
use tele_bezel.Codec.{Span, Frame, cursor_init, decode}
use tele_bezel.Codec.Layouts.{ChatRecord, SummaryRecord, layout_chat, layout_summary}
use tele_bezel.Codec.Frames.{
  Walk, finished, bad_frame, stopped, out_of_fuel, for_records, loop_fuel,
}
use tele_bezel.Text.{Budget, copy_id, budget_copy, or_empty}
use tele_bezel.Text.Copies.{free_strings}
use tele_bezel.Sending.{same_bytes}
use tele_bezel.Chats.{Codes, Config, Chat, Store, full, is_full}

abbrev pub strings : Chat → List (Option (List ℕ))
strings item = item.title ∷ item.sender ∷ item.extra ∷ item.preview ∷ []

-- `free_item`
unfoldable pub free_item : Budget → Chat → Budget
free_item budget item = free_strings budget (strings item)

unfoldable pub free_items : Budget → List Chat → Budget
free_items budget [] = budget
free_items budget (item ∷ items) = free_items (free_item budget item) items

-- `clear`
unfoldable pub clear_items : Store → Store
clear_items s = record s { items = []; budget = free_items s.budget s.items }

-- The loop of `append` that looks for the id.
unfoldable pub holds : List Chat → List ℕ → Bool
holds [] id = false
holds (item ∷ items) id = same_bytes item.id id || holds items id

abbrev pub is_null : Option (List ℕ) → Bool
is_null none = true
is_null (some bytes) = false

abbrev pub is_lost : Span → Option (List ℕ) → Bool
is_lost span p = not (span.length == 0) && is_null p

module _ (k : Codes) (c : Config) (heap : Budget → Span → Bool) where
  abbrev pub copy : Budget → Span → ℕ → Option (List ℕ) × Budget
  copy budget span limit = budget_copy (heap budget span) budget span limit false

  -- The chat of a record, with its strings.
  unfoldable pub chat_of : ChatRecord → List ℕ → Budget → Chat × Budget
  chat_of r id b =
      let (title, b1) = copy b r.title 64 in
      let (sender, b2) = copy b1 r.preview_sender 32 in
      let (extra, b3) = copy b2 r.preview_extra 48 in
      let (preview, b4) = copy b3 r.preview_text c.text_limit in
      (
        record {
          id = id;
          title = title;
          sender = sender;
          extra = extra;
          preview = preview;
          type = r.type;
          flags = r.flags;
          preview_kind = r.preview_kind;
          preview_action = r.preview_action;
          send = r.send;
          preview_duration = r.preview_duration;
          unread = r.unread;
          last_date = r.last_date;
        },
        b4,
      )

  -- The end of `append`: a chat whose title or preview was not copied fills the list.
  unfoldable pub admit : ChatRecord → Chat × Budget → Store → Store
  admit r (item, b) s =
      if is_lost r.title item.title || is_lost r.preview_text item.preview
      then record s { budget = free_item b item; tail = full }
      else record s { budget = b; items = s.items ++ (item ∷ []) }

  -- `append`
  unfoldable pub append : ChatRecord → Store → Bool × Store
  append r s =
      let (ok, out) = copy_id 21 r.id true in
      if leb c.capacity (length s.items)
      then (true, record s { tail = full })
      else if not ok
      then (false, s)
      else if holds s.items (or_empty out)
      then (true, s)
      else (true, admit r (chat_of r (or_empty out) s.budget) s)

  -- What an uninitialised record holds does not matter (Codec/Complete).
  abbrev pub no_span : Span
  no_span = record { bytes = []; length = 0 }

  abbrev pub no_summary : SummaryRecord
  no_summary = record { connection = 0; proxy = 0; unread_chats = 0; unread_messages = 0 }

  abbrev pub no_chat : ChatRecord
  no_chat = record {
    id = no_span;
    title = no_span;
    type = 0;
    flags = 0;
    unread = 0;
    last_date = 0;
    preview_kind = 0;
    preview_action = 0;
    preview_duration = 0;
    preview_sender = no_span;
    preview_extra = no_span;
    preview_text = no_span;
    send = 0;
  }

  abbrev pub with_summary : SummaryRecord → Store → Store
  with_summary r s = record s {
    connection = r.connection;
    proxy = not (r.proxy == 0);
    unread_chats = r.unread_chats;
    unread_messages = r.unread_messages;
    summary_revision = add32 s.summary_revision 1;
  }

  -- The body of the loop of `parse`.
  unfoldable pub take_frame : Frame → Store → Bool × Store
  take_frame f s =
      let (summary_ok, summary, summary_body) = decode f.body layout_summary no_summary in
      let (chat_ok, chat, chat_body) = decode f.body layout_chat no_chat in
      if f.type == k.record_summary
      then if summary_ok then (true, with_summary summary s) else (false, s)
      else if not (f.type == k.record_chat) || not chat_ok
      then (false, s)
      else if is_full s.tail
      then (true, s)
      else append chat s

  abbrev pub parsed : Walk Store → Bool × Store
  parsed (finished s) = (true, s)
  parsed (bad_frame s) = (false, s)
  parsed (stopped s) = (false, s)
  parsed (out_of_fuel s) = (false, s)

  -- `parse`
  unfoldable pub parse : List ℕ → Store → Bool × Store
  parse payload s = parsed (
      for_records take_frame (loop_fuel (length payload))
        (cursor_init (some payload) (length payload)) s)
