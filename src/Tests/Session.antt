-- ===== src/Tests/Session.antt =====
-- Runs of the session.
use tele_bezel.Base.{ℕ, ◌+◌, ◌<◌, ◌≡◌, refl, true, some, List, [], ◌∷◌}
use tele_bezel.Base.Int.{pos}
use tele_bezel.Requests.Layer.{Outcome, Response}
use tele_bezel.Sending.{Requests}
use tele_bezel.Session.{Codes, Session}
use tele_bezel.Session.Calls.{init, find_from}
use tele_bezel.Session.Accounts.{
  initial_account, default_or_only, is_ready, initial_account-IsReady,
}
use tele_bezel.Session.Sound.{IsSound}
use tele_bezel.Session.Reached.{
  Event, starts, answers, readied, refreshes, stops, reached, reached-IsSound,
}

abbrev codes : Codes
codes = record {
  results = record {
    ok = 0;
    config_missing = 1;
    config_invalid = 2;
    api_unauthorized = 4;
    protocol_error = 6;
    account_needs_login = 7;
    account_gone = 8;
    busy = 11;
    wrong_token_type = 15;
    send_rate_limited = 21;
  };
  request_hello = 1;
  request_bootstrap = 2;
  record_prefs = 1;
  record_account = 2;
  record_pending_send = 3;
  list_main = 0;
  list_archive = 1;
  unread_chats = 0;
  unread_messages = 1;
  photo_auto = 0;
  photo_manual = 1;
  state_ready = 1;
}

abbrev layer : Requests ℕ
layer = record {
  submit = λ n args timeout attempts resend. (n + 1, n + 1);
  cancel = λ n sequence. n;
  immediate = λ n. Outcome.timeout;
}

abbrev answer : Response
answer = record {
  outcome = Outcome.response;
  result = pos 0;
  flags = 0;
  retry_after = 0;
  payload = 3 ∷ 1 ∷ 0 ∷ 9 ∷ [];
  index = 0;
  total = 1;
  final = true;
}

abbrev events : List (Event ℕ)
events =
    starts true
    ∷ readied (λ n sequence result. (n, some answer)) 1
    ∷ answers 2 answer
    ∷ refreshes
    ∷ stops
    ∷ []

reached-IsSound_example : IsSound (reached codes layer 0 events)
reached-IsSound_example = reached-IsSound codes layer 0 events

abbrev session : Session ℕ
session = record (init codes layer 0) {
  accounts =
      record { id = 65 ∷ []; name = []; state = 2; flags = 0 }
      ∷ record { id = 66 ∷ []; name = []; state = 1; flags = 0 }
      ∷ [];
  default_account = 66 ∷ [];
}

chosen : initial_account codes session ≡ some 1
unfolding initial_account default_or_only find_from
chosen = refl

initial_account-IsReady_example : (1 < 2) × (is_ready codes session 1 ≡ true)
initial_account-IsReady_example = initial_account-IsReady codes session 1 chosen
