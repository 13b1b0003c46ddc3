-- ===== src/Session.antt =====
-- app/src/c/session.c and session.h: the greeting of the phone and the bootstrap that follows, with the
-- accounts and the preferences that it brings. This module has the types.
pub mod Bootstrap
pub mod Calls
pub mod Accounts
pub mod Sound
pub mod Reached
use tele_bezel.Base.{ℕ, Bool, true, false, List, Option}
use tele_bezel.Base.Int.{ℤ}
use tele_bezel.Errors.{Results}

-- The constants of the protocol, which are in a file that the build generates.
pub record Codes : Type 0 where
  pub results : Results
  pub request_hello : ℕ
  pub request_bootstrap : ℕ
  pub record_prefs : ℕ
  pub record_account : ℕ
  pub record_pending_send : ℕ
  pub list_main : ℕ
  pub list_archive : ℕ
  pub unread_chats : ℕ
  pub unread_messages : ℕ
  pub photo_auto : ℕ
  pub photo_manual : ℕ
  pub state_ready : ℕ

-- `TB_MAX_ACCOUNTS`
abbrev pub max_accounts : ℕ
max_accounts = 8

-- `TbSessionPhase`
pub data Phase : Type 0 where
  idle hello bootstrapping : Phase

abbrev pub is_idle : Phase → Bool
is_idle idle = true
is_idle hello = false
is_idle bootstrapping = false

abbrev pub is_hello : Phase → Bool
is_hello hello = true
is_hello idle = false
is_hello bootstrapping = false

-- `TbAccount`
pub record Account : Type 0 where
  pub id : List ℕ
  pub name : List ℕ
  pub state : ℕ
  pub flags : ℕ

-- A call of a port.
pub data Call : Type 0 where
  changed : Call
  extra : ℕ → List ℕ → Call

-- `TbSession`, over a request layer `L`, with the calls of its ports, the last one first. The accounts
-- are those below `count`.
pub record Session (L : Type 0) : Type 0 where
  pub requests : L
  pub phase : Phase
  pub pending : ℕ
  pub error : ℤ
  pub retry_after : ℕ
  pub loaded : Bool
  pub generation : ℕ
  pub accounts : List Account
  pub default_account : List ℕ
  pub chat_list : ℕ
  pub show_archive : Bool
  pub unread_mode : ℕ
  pub photo_mode : ℕ
  pub host : List ℕ
  pub failure : Option (List ℕ)
  pub log : List Call
