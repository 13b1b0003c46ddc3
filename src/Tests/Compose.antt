-- ===== src/Tests/Compose.antt =====
-- Runs of a composition.
use tele_bezel.Base.{ℕ, ◌+◌, Bool, true, some, List, [], ◌∷◌}
use tele_bezel.Base.Int.{pos}
use tele_bezel.Requests.Layer.{Outcome, Response}
use tele_bezel.Sending.{Requests}
use tele_bezel.Compose.{Codes, Config, ComposeTarget}
use tele_bezel.Compose.Calls.{sendable}
use tele_bezel.Compose.Sound.{IsSound}
use tele_bezel.Compose.Reached.{
  Event, opens, picks, templates_come, draft_comes, composed, composed-IsSound,
}

abbrev codes : Codes
codes = record {
  results = record {
    ok = 0;
    config_missing = 1;
    config_invalid = 2;
    api_unauthorized = 4;
    protocol_error = 6;
    account_needs_login = 7;
    account_gone = 8;
    busy = 11;
    wrong_token_type = 15;
    send_rate_limited = 21;
  };
  cursor_lost = 9;
  request_templates = 8;
  request_draft = 9;
  request_discard = 10;
  record_templates = 6;
  record_template = 7;
  record_draft = 8;
  record_text = 5;
  page_first = 0;
  page_refresh = 3;
  flag_too_long = 1;
}

abbrev config : Config
config = record { capacity = 4; preview_limit = 20; text_limit = 100; timeout = 30 }

abbrev heap : ℕ → Bool
heap bytes = true

abbrev layer : Requests ℕ
layer = record {
  submit = λ n args timeout attempts resend. (n + 1, n + 1);
  cancel = λ n sequence. n;
  immediate = λ n. Outcome.timeout;
}

abbrev target : ComposeTarget
target = record {
  send = record { account = 65 ∷ []; chat = 66 ∷ []; reply = [] };
  account_name = [];
  chat_title = [];
  reply_sender = [];
  reply_text = [];
}

abbrev answer : List ℕ → Response
answer payload = record {
  outcome = Outcome.response;
  result = pos 0;
  flags = 0;
  retry_after = 0;
  payload = payload;
  index = 0;
  total = 1;
  final = true;
}

-- One template, `A`, and the draft of the text `A`.
abbrev templates : List ℕ
templates = 6 ∷ 6 ∷ 0 ∷ 1 ∷ 0 ∷ 0 ∷ 0 ∷ 1 ∷ 0 ∷ 7 ∷ 5 ∷ 0 ∷ 0 ∷ 1 ∷ 0 ∷ 1 ∷ 65 ∷ []

abbrev draft : List ℕ
draft = 8 ∷ 9 ∷ 0 ∷ 3 ∷ 0 ∷ 0 ∷ 0 ∷ 1 ∷ 0 ∷ 1 ∷ 0 ∷ 0 ∷ 5 ∷ 3 ∷ 0 ∷ 1 ∷ 0 ∷ 65 ∷ []

abbrev events : List Event
events =
    opens (some target)
    ∷ templates_come 0 (answer templates)
    ∷ picks 0
    ∷ draft_comes 1 (answer draft)
    ∷ []

composed-IsSound_example : IsSound config (composed codes config heap layer 0 events)
composed-IsSound_example = composed-IsSound codes config heap layer 0 events

abbrev sent : Bool
sent = sendable codes config heap layer (composed codes config heap layer 0 events)
