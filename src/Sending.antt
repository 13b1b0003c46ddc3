-- ===== src/Sending.antt =====
-- app/src/c/send_tracker.c and send_tracker.h: the message that is being sent, and what is known of it.
-- The request layer is an interface, which Requests fills: a submit or a cancel changes the layer and
-- calls no callback that acts on the tracker (a cancelled answer is dropped by `completed`). The protocol's
-- codes are in a file that the build generates, and are parameters.
pub mod Calls
pub mod Settled
pub mod Stuck
use tele_bezel.Base.{
  ℕ, ◌+◌, ◌%◌, ◌^◌, Bool, true, false, not, ◌&&◌, ◌||◌, Option, none, some, List, [], ◌∷◌, ltb,
  ◌==◌, if◌then◌else◌, take,
}
use tele_bezel.Base.Int.{ℤ, pos, negsuc}
use tele_bezel.Codec.{Span, Cursor, Frame, cursor_init, next, decode}
use tele_bezel.Codec.Layouts.{SendStateRecord, layout_send_state}
use tele_bezel.Text.{copy_span}
use tele_bezel.Requests.Layer.{Outcome, RequestArgs, Response, no_args}
use tele_bezel.Errors.{
  Results, is_code, no_response, phone_unreachable, error_from_outcome, error_from_response,
}

-- The constants of the protocol.
pub record Protocol : Type 0 where
  pub results : Results
  pub record_send_state : ℕ
  pub record_pending_send : ℕ
  pub request_send : ℕ
  pub request_send_check : ℕ
  pub state_sent : ℕ
  pub state_failed : ℕ
  pub state_unknown : ℕ

-- `TB_SEND_FLAG_RETRYABLE` is a bit of the flags: the test of it, and the flags with that bit alone.
pub record Flags : Type 0 where
  pub has_retryable : ℕ → Bool
  pub retryable : ℕ

-- What the tracker uses of the request layer.
pub record Requests (L : Type 0) : Type 0 where
  pub submit : L → RequestArgs → ℕ → ℕ → Bool → L × ℕ
  pub cancel : L → ℕ → L
  pub immediate : L → Outcome

-- `TbSendPhase`
pub data Phase : Type 0 where
  idle submitting pending sent failed unknown : Phase

-- `TbSendTarget`; a string is its bytes before the zero byte.
pub record Target : Type 0 where
  pub account : List ℕ
  pub chat : List ℕ
  pub reply : List ℕ

-- `TbSendStatus`
pub record Status : Type 0 where
  pub draft_id : ℕ
  pub phase : Phase
  pub code : ℤ
  pub retry_after : ℕ
  pub flags : ℕ
  pub restored : Bool
  pub target : Target
  pub message : List ℕ
  pub title : List ℕ
  pub preview : List ℕ

-- `TbSendTracker`, with the statuses that the port was told of, the last one first.
pub record Tracker (L : Type 0) : Type 0 where
  pub requests : L
  pub status : Status
  pub pending : ℕ
  pub attempt : ℕ
  pub told : List Status

abbrev pub no_target : Target
no_target = record { account = []; chat = []; reply = [] }

abbrev pub no_status : Status
no_status = record {
  draft_id = 0;
  phase = idle;
  code = pos 0;
  retry_after = 0;
  flags = 0;
  restored = false;
  target = no_target;
  message = [];
  title = [];
  preview = [];
}

abbrev no_span : Span
no_span = record { bytes = []; length = 0 }

-- What an uninitialised record holds does not matter (Codec/Complete).
abbrev pub blank : SendStateRecord
blank = record {
  draft_id = 0;
  state = 0;
  code = 0;
  retry_after = 0;
  flags = 0;
  account = no_span;
  chat = no_span;
  message = no_span;
  title = no_span;
  preview = no_span;
}

abbrev until_zero : List ℕ → List ℕ
until_zero [] = []
until_zero (c ∷ cs) = if c == 0 then [] else c ∷ until_zero cs

-- The string that `tb_copy_span` leaves in an array of this size.
abbrev pub string_of : ℕ → Span → List ℕ
string_of size span = elim (copy_span size span) [ none ↦ [] | some bytes ↦ until_zero bytes ]

abbrev pub is_empty : List ℕ → Bool
is_empty [] = true
is_empty (_ ∷ _) = false

abbrev pub same_bytes : List ℕ → List ℕ → Bool
same_bytes [] [] = true
same_bytes [] (_ ∷ _) = false
same_bytes (_ ∷ _) [] = false
same_bytes (x ∷ xs) (y ∷ ys) = x == y && same_bytes xs ys

-- `settled`
unfoldable pub is_settled : Phase → Bool
is_settled sent = true
is_settled failed = true
is_settled idle = false
is_settled submitting = false
is_settled pending = false
is_settled unknown = false

abbrev pub phase_number : Phase → ℕ
phase_number idle = 0
phase_number submitting = 1
phase_number pending = 2
phase_number sent = 3
phase_number failed = 4
phase_number unknown = 5

abbrev pub same_code : ℤ → ℕ → Bool
same_code code n = is_code code n

-- `same_target`
unfoldable pub same_target : Target → SendStateRecord → Bool
same_target target r =
    same_bytes (string_of 37 r.account) target.account
    && same_bytes (string_of 21 r.chat) target.chat

abbrev pub is_underway : Phase → Bool
is_underway phase = phase_number phase == 1 || phase_number phase == 2

module _ {L : Type 0} where
  -- `notify`
  unfoldable pub notify : Tracker L → Tracker L
  notify t = record t { told = t.status ∷ t.told }

  -- `tb_send_init`
  unfoldable pub init : L → Tracker L
  init requests = record {
    requests = requests;
    status = no_status;
    pending = 0;
    attempt = 0;
    told = [];
  }

  -- `tb_send_busy`
  unfoldable pub busy : Tracker L → Bool
  busy t = not (t.status.draft_id == 0) && is_underway t.status.phase

  -- `tb_send_forget`
  unfoldable pub forget : ℕ → Tracker L → Tracker L
  forget draft_id t =
      if not (t.status.draft_id == draft_id) || busy t then t else record t { status = no_status }
