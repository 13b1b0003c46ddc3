-- ===== src/Chats.antt =====
-- app/src/c/chats.c and chats.h: the list of chats of an account, in pages. This module has the types;
-- the fields of `TbChats` that hold chats are the record `Store`.
pub mod Items
pub mod Calls
pub mod Sound
pub mod Reached
use tele_bezel.Base.{ℕ, Bool, true, false, not, List, [], Option, none, ◌==◌, bit_and}
use tele_bezel.Base.Int.{ℤ}
use tele_bezel.Text.{Budget}
use tele_bezel.Errors.{Results}

-- The constants of the protocol, which are in a file that the build generates.
pub record Codes : Type 0 where
  pub results : Results
  pub cursor_lost : ℕ
  pub request_chats : ℕ
  pub record_summary : ℕ
  pub record_chat : ℕ
  pub page_first : ℕ
  pub page_next : ℕ
  pub page_retry : ℕ
  pub list_main : ℕ
  pub list_archive : ℕ
  pub has_more : ℕ
  pub partial : ℕ
  pub has_more_unknown : ℕ
  pub connection_not_ready : ℕ
  pub connecting : ℕ

-- `flags & bit`, as a test
abbrev pub has : ℕ → ℕ → Bool
has flags bit = not (bit_and flags bit == 0)

-- `TbChat`; a null string is `none`.
pub record Chat : Type 0 where
  pub id : List ℕ
  pub title : Option (List ℕ)
  pub sender : Option (List ℕ)
  pub extra : Option (List ℕ)
  pub preview : Option (List ℕ)
  pub type : ℕ
  pub flags : ℕ
  pub preview_kind : ℕ
  pub preview_action : ℕ
  pub send : ℕ
  pub preview_duration : ℕ
  pub unread : ℕ
  pub last_date : ℕ

-- `TbChatsLoad`
pub data Load : Type 0 where
  idle first more refresh : Load

-- `TbChatsTail`
pub data Tail : Type 0 where
  has_next unknown end_reached full broken : Tail

abbrev pub is_idle : Load → Bool
is_idle idle = true
is_idle _ = false

abbrev pub is_more : Load → Bool
is_more more = true
is_more _ = false

abbrev pub is_full : Tail → Bool
is_full full = true
is_full _ = false

abbrev pub is_broken : Tail → Bool
is_broken broken = true
is_broken _ = false

-- `TbChatsConfig`
pub record Config : Type 0 where
  pub capacity : ℕ
  pub page_limit : ℕ
  pub text_limit : ℕ
  pub text_budget : ℕ
  pub timeout : ℕ
  pub refresh_interval : ℕ
  pub stale_after : ℕ

-- The chats that are held, with their budget and what a summary brings.
pub record Store : Type 0 where
  pub items : List Chat
  pub budget : Budget
  pub tail : Tail
  pub connection : ℕ
  pub proxy : Bool
  pub unread_chats : ℕ
  pub unread_messages : ℕ
  pub summary_revision : ℕ

-- A call of a port.
pub data Call : Type 0 where
  changed cancel : Call
  schedule : ℕ → Call

-- `TbChats`, over a request layer `L`, with the calls of its ports, the last one first.
pub record Chats (L : Type 0) : Type 0 where
  pub requests : L
  pub account : List ℕ
  pub list : ℕ
  pub store : Store
  pub load : Load
  pub pending : ℕ
  pub error : ℤ
  pub retry_after : ℕ
  pub connection_not_ready : Bool
  pub loaded : Bool
  pub active : Bool
  pub resynced : Bool
  pub loaded_at : ℕ
  pub refresh_due : ℕ
  pub log : List Call
