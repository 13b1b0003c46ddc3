-- ===== src/Tests/Connection.antt =====
-- Runs of the connection's polling.
use tele_bezel.Base.{ℕ, ◌+◌, true, false, [], ◌∷◌}
use tele_bezel.Requests.Layer.{Outcome}
use tele_bezel.Sending.{Requests}
use tele_bezel.Connection.{Codes}
use tele_bezel.Connection.Polling.{IsTimed, opened, told, timed, shown, after, after-IsTimed}

abbrev codes : Codes
codes = record {
  connecting = 0;
  updating = 1;
  ready = 2;
  record_status = 4;
  request_events = 6;
  result_ok = 0;
}

-- A layer that numbers the requests.
abbrev layer : Requests ℕ
layer = record {
  submit = λ n args timeout attempts resend. (n + 1, n + 1);
  cancel = λ n sequence. n;
  immediate = λ n. Outcome.timeout;
}

after-IsTimed_example :
    IsTimed codes layer
      (after codes layer 0 5000 (timed ∷ shown true ∷ told 1 false ∷ opened (49 ∷ []) ∷ []))
after-IsTimed_example =
    after-IsTimed codes layer 0 5000 (timed ∷ shown true ∷ told 1 false ∷ opened (49 ∷ []) ∷ [])
