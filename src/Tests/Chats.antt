-- ===== src/Tests/Chats.antt =====
-- Runs of the list of chats.
use tele_bezel.Base.{ℕ, ◌+◌, Bool, true, List, [], ◌∷◌, length}
use tele_bezel.Base.Int.{pos}
use tele_bezel.Codec.{Span}
use tele_bezel.Text.{Budget}
use tele_bezel.Requests.Layer.{Outcome, Response}
use tele_bezel.Sending.{Requests}
use tele_bezel.Chats.{Codes, Config}
use tele_bezel.Chats.Reached.{
  Event, IsSound, opens, answers, loads_more, fires, chats_after, chats_after-IsSound,
}

abbrev codes : Codes
codes = record {
  results = record {
    ok = 0;
    config_missing = 1;
    config_invalid = 2;
    api_unauthorized = 4;
    protocol_error = 6;
    account_needs_login = 7;
    account_gone = 8;
    busy = 11;
    wrong_token_type = 15;
    send_rate_limited = 21;
  };
  cursor_lost = 9;
  request_chats = 4;
  record_summary = 3;
  record_chat = 4;
  page_first = 0;
  page_next = 1;
  page_retry = 2;
  list_main = 0;
  list_archive = 1;
  has_more = 1;
  partial = 4;
  has_more_unknown = 8;
  connection_not_ready = 16;
  connecting = 2;
}

abbrev config : Config
config = record {
  capacity = 4;
  page_limit = 2;
  text_limit = 100;
  text_budget = 1000;
  timeout = 30;
  refresh_interval = 60000;
  stale_after = 30000;
}

abbrev heap : Budget → Span → Bool
heap budget span = true

abbrev layer : Requests ℕ
layer = record {
  submit = λ n args timeout attempts resend. (n + 1, n + 1);
  cancel = λ n sequence. n;
  immediate = λ n. Outcome.timeout;
}

-- The chat of id 7 with the title `A`, twice.
abbrev chunk : List ℕ
chunk =
    4 ∷ 21 ∷ 0 ∷ 1 ∷ 55 ∷ 1 ∷ 65 ∷ 0 ∷ 0 ∷ 0 ∷ 0 ∷ 0 ∷ 0 ∷ 0 ∷ 0 ∷ 0 ∷ 0 ∷ 0 ∷ 0 ∷ 0 ∷ 0 ∷ 0 ∷ 0 ∷ 0
    ∷ 4 ∷ 21 ∷ 0 ∷ 1 ∷ 55 ∷ 1 ∷ 65 ∷ 0 ∷ 0 ∷ 0 ∷ 0 ∷ 0 ∷ 0 ∷ 0 ∷ 0 ∷ 0 ∷ 0 ∷ 0 ∷ 0 ∷ 0 ∷ 0 ∷ 0 ∷ 0
    ∷ 0 ∷ []

abbrev answer : Response
answer = record {
  outcome = Outcome.response;
  result = pos 0;
  flags = 1;
  retry_after = 0;
  payload = chunk;
  index = 0;
  total = 1;
  final = true;
}

abbrev events : List Event
events = opens (65 ∷ []) 0 ∷ answers 100 1 answer ∷ loads_more ∷ fires 200 ∷ []

chats_after-IsSound_example : IsSound config (chats_after codes config heap layer 0 events)
chats_after-IsSound_example = chats_after-IsSound codes config heap layer 0 events

abbrev held : ℕ
held = length (chats_after codes config heap layer 0 events).store.items
