-- ===== src/Tests/History.antt =====
-- Runs of the history of a chat.
use mathlib.Core.List.{Perm}
use tele_bezel.Base.{ℕ, ◌+◌, ◌≤◌, refl, Bool, true, false, List, [], ◌∷◌}
use tele_bezel.Base.Int.{pos}
use tele_bezel.Requests.Layer.{Outcome, Response}
use tele_bezel.Sending.{Requests}
use tele_bezel.Text.{Budget}
use tele_bezel.Codec.{Span}
use tele_bezel.History.{Codes, Config, Message, Store, History, no_message}
use tele_bezel.History.Merging.{sort, merge_albums}
use tele_bezel.History.Pages.{finish}
use tele_bezel.History.Calls.{init, completed, find_from}
use tele_bezel.History.Order.{IsSorted}
use tele_bezel.History.Memory.{weight}
use tele_bezel.History.Kept.{IsSound}
use tele_bezel.History.Reached.{Event, opens, loads_older, fires, answers, run, run-IsSound}
use tele_bezel.History.Ends.{finish-within}
use tele_bezel.History.Answered.{Over, is_lost, failure, newest_page, completed-Over}
use tele_bezel.History.Found.{IsFirst, sort-Perm, find_from-IsFirst}
use tele_bezel.History.Split.{IsSplit, merge_albums-IsSplit}

abbrev codes : Codes
codes = record {
  results = record {
    ok = 0;
    config_missing = 1;
    config_invalid = 2;
    api_unauthorized = 4;
    protocol_error = 6;
    account_needs_login = 7;
    account_gone = 8;
    busy = 11;
    wrong_token_type = 15;
    send_rate_limited = 21;
  };
  cursor_lost = 9;
  chat_not_found = 10;
  request_history = 5;
  record_message = 4;
  page_first = 0;
  page_next = 1;
  page_retry = 2;
  page_refresh = 3;
  page_recheck = 4;
  has_more = 1;
  refresh_pending = 2;
  partial = 4;
  local_exhausted = 8;
  connection_not_ready = 16;
  media_album = 1;
  media_spoiler = 2;
  media_image = 4;
}

abbrev config : Config
config = record {
  capacity = 4;
  page_limit = 2;
  text_limit = 100;
  text_budget = 1000;
  timeout = 30;
  refresh_interval = 60000;
  followup_delays = 5000 ∷ 15000 ∷ [];
}

-- A heap that always grants a block, and a layer that numbers the requests.
abbrev heap : Budget → Span → Bool
heap budget span = true

abbrev layer : Requests ℕ
layer = record {
  submit = λ n args timeout attempts resend. (n + 1, n + 1);
  cancel = λ n sequence. n;
  immediate = λ n. Outcome.timeout;
}

-- A chunk with the message of id 7, from `A`, whose text is `B`.
abbrev chunk : List ℕ
chunk =
    4 ∷ 28 ∷ 0 ∷ 1 ∷ 55 ∷ 0 ∷ 0 ∷ 0 ∷ 0 ∷ 0 ∷ 0 ∷ 0 ∷ 0 ∷ 0 ∷ 1 ∷ 65 ∷ 0 ∷ 1 ∷ 0 ∷ 66 ∷ 0 ∷ 0 ∷ 0
    ∷ 0 ∷ 0 ∷ 0 ∷ 0 ∷ 0 ∷ 0 ∷ 0 ∷ 0 ∷ []

abbrev answer : Response
answer = record {
  outcome = Outcome.response;
  result = pos 0;
  flags = 1;
  retry_after = 0;
  payload = chunk;
  index = 0;
  total = 1;
  final = true;
}

abbrev events : List Event
events = opens (65 ∷ []) (66 ∷ []) 1 false ∷ answers 100 1 answer ∷ loads_older ∷ fires 200 ∷ []

abbrev reached : History ℕ
reached = run codes config heap layer events (init codes config heap layer 0)

run-IsSound_example :
    IsSound config (run codes config heap layer events (init codes config heap layer 0))
run-IsSound_example = run-IsSound codes config heap layer 0 events

finish-within_example :
    weight (finish codes config 300 1 reached).store.items
    ≤ (finish codes config 300 1 reached).store.budget.limit
finish-within_example =
    finish-within codes config 300 1 reached (run-IsSound codes config heap layer 0 events)

-- The page is lost.
abbrev lost : Response
lost = record answer { result = pos codes.cursor_lost }

completed-Over_example :
    Over codes config heap layer
      (is_lost codes config heap layer
        (failure codes config heap layer lost reached)
        reached.resynced)
      reached.requests
      (newest_page codes config heap layer reached)
      (completed codes config heap layer 300 reached.pending lost reached)
completed-Over_example = completed-Over codes config heap layer 300 lost reached refl refl

abbrev older_one : Message
older_one = record no_message { id = 55 ∷ []; key = 7; album = 3 }

abbrev newer_one : Message
newer_one = record no_message { id = 56 ∷ []; key = 8; album = 3 }

sort-Perm_example :
    IsSorted (sort (newer_one ∷ older_one ∷ []))
    × Perm (newer_one ∷ older_one ∷ []) (sort (newer_one ∷ older_one ∷ []))
sort-Perm_example = sort-Perm (newer_one ∷ older_one ∷ [])

find_from-IsFirst_example :
    IsFirst
      (older_one ∷ newer_one ∷ [])
      (56 ∷ [])
      (find_from (older_one ∷ newer_one ∷ []) (56 ∷ []) 0)
find_from-IsFirst_example = find_from-IsFirst (older_one ∷ newer_one ∷ []) (56 ∷ [])

abbrev store : Store
store = record {
  items = older_one ∷ newer_one ∷ [];
  staging = [];
  staging_invalid = false;
  budget = record { used = 0; limit = 1000 };
  truncated = false;
}

merge_albums-IsSplit_example : IsSplit codes (merge_albums codes store).items
merge_albums-IsSplit_example = merge_albums-IsSplit codes store

abbrev held : ℕ
held = weight reached.store.items
