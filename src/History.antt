-- ===== src/History.antt =====
-- app/src/c/history.c and history.h: the messages of a chat. A page of messages is staged while its
-- chunks arrive, sorted, and then merged before or after the messages that are held; strings are taken
-- from a budget. This module has the types; the fields of `TbHistory` that hold messages are the
-- record `Store`.
pub mod Staging
pub mod Merging
pub mod Pages
pub mod Calls
pub mod Order
pub mod Merged
pub mod Staged
pub mod Albums
pub mod Limits
pub mod Memory
pub mod Paid
pub mod Sound
pub mod Kept
pub mod Replies
pub mod Reached
pub mod Ends
pub mod Answered
pub mod Found
pub mod Split
use tele_bezel.Base.{ℕ, Bool, true, false, not, ◌&&◌, List, [], ◌∷◌, Option, none, ◌==◌, bit_and}
use tele_bezel.Base.Int.{ℤ, pos, negsuc}
use tele_bezel.Text.{Budget}
use tele_bezel.Errors.{Results}

-- The constants of the protocol, which are in a file that the build generates.
pub record Codes : Type 0 where
  pub results : Results
  pub cursor_lost : ℕ
  pub chat_not_found : ℕ
  pub request_history : ℕ
  pub record_message : ℕ
  pub page_first : ℕ
  pub page_next : ℕ
  pub page_retry : ℕ
  pub page_refresh : ℕ
  pub page_recheck : ℕ
  pub has_more : ℕ
  pub refresh_pending : ℕ
  pub partial : ℕ
  pub local_exhausted : ℕ
  pub connection_not_ready : ℕ
  pub media_album : ℕ
  pub media_spoiler : ℕ
  pub media_image : ℕ

-- `flags & bit`, as a test
abbrev pub has : ℕ → ℕ → Bool
has flags bit = not (bit_and flags bit == 0)

-- `TbMessage`; a null string is `none`. An id that `stage` takes has no minus, so its key is a
-- natural number.
pub record Message : Type 0 where
  pub id : List ℕ
  pub key : ℕ
  pub date : ℕ
  pub flags : ℕ
  pub kind : ℕ
  pub action : ℕ
  pub duration : ℕ
  pub media : ℕ
  pub media_count : ℕ
  pub album : ℕ
  pub sender : Option (List ℕ)
  pub signature : Option (List ℕ)
  pub forward : Option (List ℕ)
  pub extra : Option (List ℕ)
  pub text : Option (List ℕ)
  pub reply : Option (List ℕ)
  pub reply_id : Option (List ℕ)
  pub reply_sender : Option (List ℕ)
  pub height : ℤ

-- A message after `memset`.
abbrev pub no_message : Message
no_message = record {
  id = [];
  key = 0;
  date = 0;
  flags = 0;
  kind = 0;
  action = 0;
  duration = 0;
  media = 0;
  media_count = 0;
  album = 0;
  sender = none;
  signature = none;
  forward = none;
  extra = none;
  text = none;
  reply = none;
  reply_id = none;
  reply_sender = none;
  height = pos 0;
}

-- `TbTop`
pub data Top : Type 0 where
  more loading failed waiting start unknown : Top

-- `TbHistoryOp`
pub data Operation : Type 0 where
  no_operation first refresh older : Operation

abbrev pub is_none : Operation → Bool
is_none no_operation = true
is_none first = false
is_none refresh = false
is_none older = false

abbrev pub is_first : Operation → Bool
is_first first = true
is_first no_operation = false
is_first refresh = false
is_first older = false

abbrev pub is_older : Operation → Bool
is_older older = true
is_older no_operation = false
is_older first = false
is_older refresh = false

abbrev pub is_loading : Top → Bool
is_loading loading = true
is_loading _ = false

abbrev pub is_failed : Top → Bool
is_failed failed = true
is_failed _ = false

abbrev pub is_waiting : Top → Bool
is_waiting waiting = true
is_waiting _ = false

-- `TbHistoryConfig`
pub record Config : Type 0 where
  pub capacity : ℕ
  pub page_limit : ℕ
  pub text_limit : ℕ
  pub text_budget : ℕ
  pub timeout : ℕ
  pub refresh_interval : ℕ
  pub followup_delays : List ℕ

-- The messages that are held, those of the page that arrives, and their budget.
pub record Store : Type 0 where
  pub items : List Message
  pub staging : List Message
  pub staging_invalid : Bool
  pub budget : Budget
  pub truncated : Bool

-- A call of a port.
pub data Call : Type 0 where
  changed cancel : Call
  schedule : ℕ → Call

-- `TbHistory`, over a request layer `L`, with the calls of its ports, the last one first.
pub record History (L : Type 0) : Type 0 where
  pub requests : L
  pub account : List ℕ
  pub chat : List ℕ
  pub chat_type : ℕ
  pub saved : Bool
  pub store : Store
  pub top : Top
  pub top_op : ℕ
  pub op : Operation
  pub op_page : ℕ
  pub pending : ℕ
  pub loaded : Bool
  pub connection_not_ready : Bool
  pub active : Bool
  pub refreshing_silently : Bool
  pub resynced : Bool
  pub error : ℤ
  pub top_error : ℤ
  pub refresh_error : ℤ
  pub retry_after : ℕ
  pub followups : ℕ
  pub followup_chain : Bool
  pub rechecks : ℕ
  pub followup_due : ℕ
  pub recheck_due : ℕ
  pub periodic_due : ℕ
  pub refreshed_at : ℕ
  pub revision : ℕ
  pub log : List Call
