-- ===== src/Reading.antt =====
-- app/src/c/message_text.c and message_text.h: the whole text of a message, which arrives in chunks. The
-- request layer is the interface of Sending. Whether the heap grants a block is an argument; the calls
-- of the port are counted. The protocol's codes are in a file that the build generates, and parameters.
pub mod Room
use tele_bezel.Base.{
  ℕ, zero, suc, ◌+◌, ◌-◌, ◌*◌, Bool, true, false, not, ◌&&◌, ◌||◌, Option, none, some, List, [],
  ◌∷◌, ◌++◌, ltb, leb, ◌==◌, if◌then◌else◌, take, length,
}
use tele_bezel.Base.Int.{ℤ, pos}
use tele_bezel.Codec.{Span, Cursor, Frame, cursor_init, decode, Field, rest}
use tele_bezel.Codec.Layouts.{layout_text}
use tele_bezel.Codec.Frames.{
  Walk, finished, bad_frame, stopped, out_of_fuel, for_records, loop_fuel,
}
use tele_bezel.Text.{back_up}
use tele_bezel.Requests.Layer.{Outcome, RequestArgs, Response, no_args}
use tele_bezel.Errors.{Results, is_code, error_from_outcome, error_from_response}
use tele_bezel.Sending.{Requests}
use tele_bezel.Sending.Calls.{is_response, is_cancelled}

-- The constants of the protocol, and the test of `TB_FLAG_TRUNCATED`.
pub record Codes : Type 0 where
  pub results : Results
  pub record_text : ℕ
  pub request_message : ℕ
  pub is_truncated : ℕ → Bool

-- `TbMessageText`; the text is null until it is opened, and else its first `length` bytes.
pub record Reader (L : Type 0) : Type 0 where
  pub requests : L
  pub limit : ℕ
  pub timeout : ℕ
  pub account : List ℕ
  pub chat : List ℕ
  pub message : List ℕ
  pub text : Option (List ℕ)
  pub capacity : ℕ
  pub loading : Bool
  pub truncated : Bool
  pub error : ℤ
  pub pending : ℕ
  pub changes : ℕ

abbrev pub chunk_size : ℕ
chunk_size = 512

abbrev pub text_of : Option (List ℕ) → List ℕ
text_of none = []
text_of (some bytes) = bytes

abbrev is_null : Option (List ℕ) → Bool
is_null none = true
is_null (some bytes) = false

-- `while (capacity < length) { capacity *= 2; }`; fuel of `length` rounds is enough.
unfoldable pub grow : ℕ → ℕ → ℕ → ℕ
grow zero capacity length = capacity
grow (suc fuel) capacity length = elim (ltb capacity length) [
  | true ↦ grow fuel (capacity * 2) length
  | false ↦ capacity
]

-- `while (size > 0 && ...) { --size; }` over a part that does not fit.
unfoldable pub part_size : List ℕ → ℕ → ℕ → ℕ
part_size bytes length room =
    if ltb length room then length else if length == room then length else back_up bytes room

module _ {L : Type 0} (k : Codes) (memory : Bool) (q : Requests L) where
  -- `changed`
  abbrev pub announce : Reader L → Reader L
  announce r = record r { changes = r.changes + 1 }

  -- `submit`
  unfoldable pub submit : Reader L → Reader L
  submit r =
      let args = record no_args {
        kind = k.request_message;
        text_limit = r.limit;
        account = take 36 r.account;
        chat = take 20 r.chat;
        message = take 20 r.message;
      } in
      let (requests, sequence) = q.submit r.requests args r.timeout 2 false in
      let r' = record r {
        requests = requests;
        text = some [];
        truncated = false;
        error = pos 0;
        loading = true;
        pending = sequence;
      } in
      announce (
        if sequence == 0
        then record r' {
          loading = false;
          error = error_from_outcome k.results (q.immediate requests);
        }
        else r')

  -- `reserve`; `none` is `false`.
  unfoldable pub reserve : ℕ → Reader L → Option (Reader L)
  reserve length r =
      let grown = grow length (if r.capacity == 0 then chunk_size else r.capacity) length in
      if leb length r.capacity
      then some r
      else if memory
      then some (record r { capacity = if ltb r.limit grown then r.limit else grown })
      else none

  -- A part of the text in the loop of `append`: whether the loop goes on, and the reader.
  unfoldable pub add_part : Span → Reader L → Bool × Reader L
  add_part part r =
      let size = part_size part.bytes part.length (r.limit - length (text_of r.text)) in
      let r' = record r { truncated = if ltb size part.length then true else r.truncated } in
      elim (reserve (length (text_of r.text) + size) r') [
        | none ↦ (false, record r' { truncated = true })
        | some r'' ↦ (true, record r'' { text = some (text_of r.text ++ take size part.bytes) })
      ]

  -- The body of the loop of `append`, with what `append` returns where the loop stops.
  unfoldable pub add_frame : Frame → Bool × Reader L → Bool × (Bool × Reader L)
  add_frame f (result, r) =
      let (ok, part, body) = decode f.body layout_text (record { bytes = []; length = 0 }) in
      let (go, r') = add_part part r in
      if f.type == k.record_text && ok then (go, (true, r')) else (false, (false, r))

  -- What `append` returns.
  abbrev pub returned : Walk (Bool × Reader L) → Bool × Reader L
  returned (finished s) = (true, s.1)
  returned (bad_frame s) = (false, s.1)
  returned (stopped s) = s
  returned (out_of_fuel s) = (false, s.1)

  -- `append`
  unfoldable pub append : List ℕ → Reader L → Bool × Reader L
  append payload r = returned (
      for_records add_frame (loop_fuel (length payload))
        (cursor_init (some payload) (length payload)) (true, r))

  -- The end of `completed` after an error.
  unfoldable pub fail : ℕ → Response → ℤ → Reader L → Reader L
  fail sequence response error r =
      let r' = if response.final then r else record r { requests = q.cancel r.requests sequence } in
      announce (record r' { pending = 0; loading = false; error = error; text = some [] })

  -- `completed`
  unfoldable pub completed : ℕ → Response → Reader L → Reader L
  completed sequence response r =
      let good = is_response response.outcome && is_code response.result k.results.ok in
      let (ok, r') = append response.payload r in
      let cut = record r' {
        truncated = (response.index == 0 && k.is_truncated response.flags) || r'.truncated;
      } in
      if not (sequence == r.pending) || is_cancelled response.outcome
      then r
      else if not good
      then fail sequence response (error_from_response k.results response) r
      else if not ok
      then fail sequence response (pos k.results.protocol_error) r'
      else if response.final
      then announce (record cut { pending = 0; loading = false })
      else cut

  -- `tb_message_text_init`
  unfoldable pub init : L → ℕ → ℕ → Reader L
  init requests limit timeout = record {
    requests = requests;
    limit = limit;
    timeout = timeout;
    account = [];
    chat = [];
    message = [];
    text = none;
    capacity = 0;
    loading = false;
    truncated = false;
    error = pos 0;
    pending = 0;
    changes = 0;
  }

  -- `tb_message_text_close`
  unfoldable pub close : Reader L → Reader L
  close r = record r {
    requests = if r.pending == 0 then r.requests else q.cancel r.requests r.pending;
    pending = 0;
    text = none;
    capacity = 0;
    loading = false;
    truncated = false;
  }

  -- `tb_message_text_open`
  unfoldable pub begin : List ℕ → List ℕ → List ℕ → Reader L → Bool × Reader L
  begin account chat message r =
      let r' = record (close r) {
        capacity = if ltb r.limit chunk_size then r.limit else chunk_size;
      } in
      if memory
      then (
        true,
        submit (record r' {
          text = some [];
          account = take 36 account;
          chat = take 20 chat;
          message = take 20 message;
        }),
      )
      else (false, record r' { capacity = 0; error = pos 102 })

  -- `tb_message_text_retry`
  unfoldable pub retry : Reader L → Reader L
  retry r = if is_null r.text || r.loading then r else submit r
