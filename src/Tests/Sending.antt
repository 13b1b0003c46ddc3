-- ===== src/Tests/Sending.antt =====
-- Runs of the send tracker.
use tele_bezel.Base.{ℕ, ◌+◌, ◌≡◌, refl, true, false, List, [], ◌∷◌, ◌==◌}
use tele_bezel.Base.Int.{pos}
use tele_bezel.Text.{copy_span, utf8_fit}
use tele_bezel.Codec.Layouts.{SendStateRecord}
use tele_bezel.Requests.Layer.{Outcome, Response}
use tele_bezel.Errors.{error_from_response, error_of}
use tele_bezel.Sending.{
  Protocol, Flags, Requests, Tracker, Target, Phase, no_status, blank, is_settled, init, notify,
  busy, same_target,
}
use tele_bezel.Sending.Calls.{
  start, restart, submit, completed, refused, after_error, apply, updated, phase_of, take_record,
  check,
}
use tele_bezel.Sending.Stuck.{
  Event, IsLive, Moved, started, checked, answered, told_of, after, after-IsLive,
}
use tele_bezel.Sending.Settled.{IsResent, take_record-settled, lost_answer-IsResent}

abbrev protocol : Protocol
protocol = record {
  results = record {
    ok = 0;
    config_missing = 1;
    config_invalid = 2;
    api_unauthorized = 4;
    protocol_error = 6;
    account_needs_login = 7;
    account_gone = 8;
    busy = 11;
    wrong_token_type = 15;
    send_rate_limited = 21;
  };
  record_send_state = 1;
  record_pending_send = 2;
  request_send = 3;
  request_send_check = 4;
  state_sent = 1;
  state_failed = 2;
  state_unknown = 3;
}

abbrev flags : Flags
flags = record { has_retryable = λ n. n == 1; retryable = 1 }

-- A layer that numbers the requests.
abbrev numbering : Requests ℕ
numbering = record {
  submit = λ n args timeout attempts resend. (n + 1, n + 1);
  cancel = λ n sequence. n;
  immediate = λ n. Outcome.timeout;
}

abbrev friend : Target
friend = record { account = 49 ∷ []; chat = 50 ∷ []; reply = [] }

abbrev delivered : Tracker ℕ
delivered = record {
  requests = 1;
  status = record no_status { draft_id = 5; phase = Phase.sent; target = friend };
  pending = 0;
  attempt = 0;
  told = [];
}

-- No answer came.
abbrev no_answer : Response
no_answer = record {
  outcome = Outcome.timeout;
  result = pos 0;
  flags = 0;
  retry_after = 0;
  payload = [];
  index = 0;
  total = 0;
  final = true;
}

abbrev news : SendStateRecord
news = record blank {
  draft_id = 5;
  state = 1;
  account = record { bytes = 49 ∷ []; length = 1 };
  chat = record { bytes = 50 ∷ []; length = 1 };
}

abbrev submitted : List Event
submitted = started friend 5 false [] [] ∷ []

after-IsLive_example :
    IsLive (after protocol flags numbering 0 submitted)
    × Moved (
        completed protocol flags numbering
          (after protocol flags numbering 0 submitted).pending
          no_answer
          (after protocol flags numbering 0 submitted))
after-IsLive_example = after-IsLive protocol flags numbering 0 submitted no_answer refl

take_record-settled_example :
    is_settled
      (take_record protocol flags numbering
        (record blank { draft_id = 5 })
        false
        delivered).1.status.phase
    ≡ true
unfolding is_settled
take_record-settled_example =
    take_record-settled protocol flags numbering (record blank { draft_id = 5 }) false delivered
      refl refl

-- The draft is sent, its answer is lost, a check is asked for, and news say that it was sent.
abbrev reached : Tracker ℕ
reached =
    after protocol flags numbering 0
      (told_of news false ∷ checked ∷ answered 1 no_answer ∷ started friend 5 false [] [] ∷ [])

reached-status :
    (reached.status.phase ≡ Phase.sent) × (reached.status.draft_id ≡ 5) × (reached.pending ≡ 2)
unfolding start restart submit completed refused after_error apply updated take_record check notify
    busy is_settled phase_of init copy_span error_from_response error_of same_target utf8_fit
reached-status = (refl, refl, refl)

lost_answer-IsResent_example :
    let t' = completed protocol flags numbering reached.pending no_answer reached in
    let again = start protocol flags numbering friend reached.status.draft_id true [] [] t' in
    (is_settled reached.status.phase ≡ true)
    × (is_settled t'.status.phase ≡ false)
    × (again.0 ≡ true)
    × IsResent protocol flags numbering friend reached.status.draft_id t' again.1
lost_answer-IsResent_example =
    lost_answer-IsResent protocol flags numbering friend [] [] no_answer reached reached-status.0
      (rw reached-status.1 refl) refl refl
