-- ===== src/Tests/Reading.antt =====
-- Runs of the reader of a message's text.
use tele_bezel.Base.{ℕ, ◌+◌, true, false, some, [], ◌∷◌, arith}
use tele_bezel.Base.Int.{pos}
use tele_bezel.Codec.{Span}
use tele_bezel.Requests.Layer.{Outcome}
use tele_bezel.Sending.{Requests}
use tele_bezel.Reading.{Codes, Reader, add_part}
use tele_bezel.Reading.Room.{IsRoomy, add_part-IsRoomy}

abbrev codes : Codes
codes = record {
  results = record {
    ok = 0;
    config_missing = 1;
    config_invalid = 2;
    api_unauthorized = 4;
    protocol_error = 6;
    account_needs_login = 7;
    account_gone = 8;
    busy = 11;
    wrong_token_type = 15;
    send_rate_limited = 21;
  };
  record_text = 5;
  request_message = 7;
  is_truncated = λ flags. false;
}

-- A layer that numbers the requests.
abbrev layer : Requests ℕ
layer = record {
  submit = λ n args timeout attempts resend. (n + 1, n + 1);
  cancel = λ n sequence. n;
  immediate = λ n. Outcome.timeout;
}

abbrev reader : Reader ℕ
reader = record {
  requests = 1;
  limit = 4;
  timeout = 9;
  account = [];
  chat = [];
  message = [];
  text = some (65 ∷ 66 ∷ []);
  capacity = 2;
  loading = true;
  truncated = false;
  error = pos 0;
  pending = 1;
  changes = 0;
}

abbrev part : Span
part = record { bytes = 67 ∷ 68 ∷ 69 ∷ []; length = 3 }

add_part-IsRoomy_example : IsRoomy (add_part codes true layer part reader).1
add_part-IsRoomy_example =
    add_part-IsRoomy codes true layer part reader
      (record { text_in = omega arith; capacity_in = omega arith })
