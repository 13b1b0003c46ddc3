-- ===== src/History/Staging.antt =====
-- The page that arrives: `stage` and `parse` of history.c, and the freeing of messages. `heap` says
-- whether the heap grants a block for a string, by the state of the budget.
use tele_bezel.Base.{
  ℕ, ◌+◌, ◌-◌, Bool, true, false, not, ◌&&◌, ◌||◌, Option, none, some, List, [], ◌∷◌, ◌++◌, ltb,
  leb, ◌==◌, if◌then◌else◌, length, take,
}
use tele_bezel.Base.Int.{pos, negsuc}
use tele_bezel.Codec.{Span, Frame, cursor_init, decode}
use tele_bezel.Codec.Layouts.{MessageRecord, layout_message}
use tele_bezel.Codec.Frames.{
  Walk, finished, bad_frame, stopped, out_of_fuel, for_records, loop_fuel,
}
use tele_bezel.Text.Copies.{free_strings}
use tele_bezel.Text.{Budget, copy_id, parse_id, utf8_fit, budget_copy}
use tele_bezel.History.{Codes, Config, Message, Store, has, no_message}

abbrev pub strings : Message → List (Option (List ℕ))
strings m =
    m.sender ∷ m.signature ∷ m.forward ∷ m.extra ∷ m.text ∷ m.reply ∷ m.reply_id ∷ m.reply_sender
    ∷ []

-- `free_message`
unfoldable pub free_message : Budget → Message → Budget
free_message budget m = free_strings budget (strings m)

unfoldable pub free_messages : Budget → List Message → Budget
free_messages budget [] = budget
free_messages budget (m ∷ ms) = free_messages (free_message budget m) ms

-- `clear_items`
unfoldable pub clear_items : Store → Store
clear_items s = record s { items = []; budget = free_messages s.budget s.items }

-- `clear_staging`
unfoldable pub clear_staging : Store → Store
clear_staging s = record s {
  staging = [];
  staging_invalid = false;
  budget = free_messages s.budget s.staging;
}

abbrev pub is_null : Option (List ℕ) → Bool
is_null none = true
is_null (some bytes) = false

-- The string was there and was not copied.
abbrev pub is_lost : Span → Option (List ℕ) → Bool
is_lost span p = not (span.length == 0) && is_null p

-- What goes into `quote`: the sender, a colon and the text of the message that is answered.
unfoldable pub quote : Span → Span → List ℕ
quote sender text =
    let size = utf8_fit (some sender.bytes) sender.length 33 in
    let name = take size sender.bytes in
    let head =
      if not (size == 0) && not (text.length == 0) && ltb (size + 2) 96
      then name ++ (b':' ∷ b' ' ∷ [])
      else name in
    head ++ take (utf8_fit (some text.bytes) text.length (96 - length head)) text.bytes

-- The key of an id: `tb_copy_id` and `tb_parse_id` take it, and what they leave in `id` and `key`.
unfoldable pub key_of : Option (List ℕ) → Option (List ℕ × ℕ)
key_of none = none
key_of (some id) = elim (parse_id id) [
  | none ↦ none
  | some key ↦ elim key [ pos n ↦ some (id, n) | negsuc n ↦ none ]
]

unfoldable pub staged_id : Span → Option (List ℕ × ℕ)
staged_id id = let (ok, out) = copy_id 21 id false in if ok then key_of out else none

module _ (k : Codes) (c : Config) (heap : Budget → Span → Bool) where
  abbrev pub copy : Budget → Span → ℕ → Option (List ℕ) × Budget
  copy budget span limit = budget_copy (heap budget span) budget span limit true

  -- The part of `stage` under `if (record->reply_id.length)`.
  unfoldable pub with_reply : MessageRecord → Message → Budget → Message × Budget
  with_reply r m b =
      let bytes = quote r.reply_sender r.reply_text in
      let (reply, b1) = copy b (record { bytes = bytes; length = length bytes }) 96 in
      let (reply_id, b2) = copy b1 r.reply_id 20 in
      let (reply_sender, b3) = copy b2 r.reply_sender 32 in
      if r.reply_id.length == 0
      then (m, b)
      else (record m { reply = reply; reply_id = reply_id; reply_sender = reply_sender }, b3)

  -- The message of a record, with its strings.
  unfoldable pub message_of : MessageRecord → List ℕ → ℕ → Budget → Message × Budget
  message_of r id key b =
      let (sender, b1) = copy b r.sender 32 in
      let (signature, b2) = copy b1 r.signature 32 in
      let (forward, b3) = copy b2 r.forward 48 in
      let (extra, b4) = copy b3 r.extra 48 in
      let (text, b5) = copy b4 r.text c.text_limit in
      with_reply r
        (record no_message {
          id = id;
          key = key;
          date = r.date;
          flags = r.flags;
          kind = r.kind;
          action = r.action;
          duration = r.duration;
          media = r.media;
          album = if has r.media k.media_album then r.album else 0;
          media_count = if r.media_count == 0 then 1 else r.media_count;
          sender = sender;
          signature = signature;
          forward = forward;
          extra = extra;
          text = text;
          height = negsuc 0;
        })
        b5

  -- The end of `stage`: a message that lost a string makes the page invalid.
  unfoldable pub admit : MessageRecord → Message × Budget → Store → Store
  admit r (m, b) s =
      if is_lost r.text m.text || is_lost r.sender m.sender || is_lost r.forward m.forward
      then record s { budget = free_message b m; staging_invalid = true }
      else record s { budget = b; staging = s.staging ++ (m ∷ []) }

  unfoldable pub stage_keyed : MessageRecord → Option (List ℕ × ℕ) → Store → Bool × Store
  stage_keyed r none s = (false, s)
  stage_keyed r (some (id, key)) s = (true, admit r (message_of r id key s.budget) s)

  -- `stage`
  unfoldable pub stage : MessageRecord → Store → Bool × Store
  stage r s =
      if leb c.page_limit (length s.staging) then (true, s) else stage_keyed r (staged_id r.id) s

  -- What an uninitialised record holds does not matter (Codec/Complete).
  abbrev no_span : Span
  no_span = record { bytes = []; length = 0 }

  abbrev pub blank : MessageRecord
  blank = record {
    id = no_span;
    date = 0;
    flags = 0;
    kind = 0;
    action = 0;
    duration = 0;
    sender = no_span;
    extra = no_span;
    text = no_span;
    reply_id = no_span;
    reply_sender = no_span;
    reply_text = no_span;
    forward = no_span;
    media = 0;
    album = 0;
    media_count = 0;
    signature = no_span;
  }

  -- The body of the loop of `parse`.
  unfoldable pub stage_frame : Frame → Store → Bool × Store
  stage_frame f s =
      let (ok, r, body) = decode f.body layout_message blank in
      if f.type == k.record_message && ok then stage r s else (false, s)

  -- What `parse` returns.
  abbrev pub parsed : Walk Store → Bool × Store
  parsed (finished s) = (true, s)
  parsed (bad_frame s) = (false, s)
  parsed (stopped s) = (false, s)
  parsed (out_of_fuel s) = (false, s)

  -- `parse`
  unfoldable pub parse : List ℕ → Store → Bool × Store
  parse payload s = parsed (
      for_records stage_frame (loop_fuel (length payload))
        (cursor_init (some payload) (length payload)) s)
