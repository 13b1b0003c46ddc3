-- ===== src/History/Answered.antt =====
-- What a last answer leaves of the request that waits for it.
use tele_bezel.Base.{
  take, ℕ, ◌≡◌, refl, ◌∙◌, inl, inr, Bool, true, false, not, ◌&&◌, ◌||◌, ◌==◌, arith, if◌then◌else◌,
  Option, none, some, Bool-cases,
}
use tele_bezel.Base.Int.{ℤ, pos}
use tele_bezel.Codec.{Span}
use tele_bezel.Text.{Budget}
use tele_bezel.Requests.Layer.{Response, RequestArgs, no_args}
use tele_bezel.Errors.{is_code, error_from_response}
use tele_bezel.Sending.{Requests}
use tele_bezel.Sending.Calls.{is_response, is_cancelled}
use tele_bezel.History.{Codes, Config, History, Operation, no_operation, first}
use tele_bezel.History.Staging.{clear_staging, parse}
use tele_bezel.History.Pages.{arm, announce, schedule_periodic}
use tele_bezel.History.Calls.{
  not_sent, submit, with_error, with_top, fail, parsed_chunk, completed, out_of_memory,
}
use tele_bezel.History.Ends.{Same, Ended, arm-Same, finish-Ended}

module _ {L : Type 0} (k : Codes) (c : Config) (heap : Budget → Span → Bool) (q : Requests L) where
  -- The error that a last answer amounts to, where it is one: the answer is none or is an error, it does not
  -- parse, or a message of the page found no memory.
  abbrev pub failure : Response → History L → Option ℤ
  failure r h =
      let (ok, s) = parse k c heap r.payload h.store in
      if not (is_response r.outcome && is_code r.result k.results.ok)
      then some (error_from_response k.results r)
      else if not ok
      then some (pos k.results.protocol_error)
      else if s.staging_invalid
      then some (pos out_of_memory)
      else none

  -- The page is lost, and it was not asked for anew before.
  abbrev pub is_lost : Option ℤ → Bool → Bool
  is_lost none resynced = false
  is_lost (some error) resynced = is_code error k.cursor_lost && not resynced

  -- The request for the newest page of the chat.
  abbrev pub newest_page : History L → RequestArgs
  newest_page h = record no_args {
    kind = k.request_history;
    page_op = k.page_first;
    page_limit = c.page_limit;
    text_limit = c.text_limit;
    account = take 36 h.account;
    chat = take 20 h.chat;
  }

  -- The layer was given this request, and the history waits for a first page where the layer took it.
  pub record IsAsked (requests : L) (args : RequestArgs) (h : History L) : Type 0 where
    pub request : (h.requests, h.pending) ≡ q.submit requests args c.timeout 2 false
    pub op_asked : h.op ≡ (if h.pending == 0 then no_operation else first)
    pub resynced_set : h.resynced ≡ true

  -- The newest page is asked for, or the operation is over.
  abbrev pub Over : Bool → L → RequestArgs → History L → Type 0
  Over true requests args h = IsAsked requests args h
  Over false requests args h = Ended k c h

  -- A submission of the newest page while no answer is awaited.
  submit-IsAsked :
      (silent : Bool) (h : History L)
      → h.pending ≡ 0
      → h.resynced ≡ true
      → IsAsked h.requests (newest_page h) (submit k c heap q first k.page_first silent h)
  unfolding submit announce not_sent
  submit-IsAsked silent h p v =
      rw p (record {
        request = ground arith;
        op_asked = ground arith;
        resynced_set = ground (arith, v);
      })

  with_error-Same :
      (error : ℤ) (op : Operation) (h : History L) → Same h (with_error k c heap q error op h)
  unfolding with_error
  with_error-Same error op h = record { op = ground arith; pending = ground arith }

  with_top-Same :
      (error : ℤ) (op : Operation) (h : History L) → Same h (with_top k c heap q error op h)
  unfolding with_top
  with_top-Same error op h = record { op = ground arith; pending = ground arith }

  failed-Ended :
      (current : ℕ) (error : ℤ) (op : Operation) (h : History L)
      → Ended k c h
      → Ended k c (
          announce k c (
            arm k c current (
              schedule_periodic k c current
                (with_top k c heap q error op (with_error k c heap q error op h)))))
  unfolding announce schedule_periodic
  failed-Ended current error op h (o, p) =
      let h' : History L = with_error k c heap q error op h in
      let s : Same h h' = with_error-Same error op h in
      let t : Same h' (with_top k c heap q error op h') = with_top-Same error op h' in
      (
        (arm-Same k c current _).op ∙ t.op ∙ s.op ∙ o,
        (arm-Same k c current _).pending ∙ t.pending ∙ s.pending ∙ p,
      )

  fail-Over :
      (current : ℕ) (error : ℤ) (retry_after : ℕ) (h : History L)
      → Over
          (is_lost (some error) h.resynced)
          h.requests
          (newest_page h)
          (fail k c heap q current error retry_after h)
  unfolding fail
  fail-Over current error retry_after h =
      let h' : History L = record h {
        pending = 0;
        op = no_operation;
        store = clear_staging h.store;
        retry_after = retry_after;
      } in
      let h2 : History L = record h' {
        resynced = true;
        followups = 0;
        followup_chain = true;
        rechecks = 0;
      } in
      elim (Bool-cases (is_code error k.cursor_lost && not h.resynced)) [
        | inl e ↦ rw (e, fail) (submit-IsAsked h.loaded h2 refl refl)
        | inr e ↦ rw (e, fail) (failed-Ended current error h.op h' (refl, refl))
      ]

  -- An error if the test holds, and the end of the operation if not.
  Over-if :
      (b : Bool) (error : ℤ) (resynced : Bool) (requests : L) (args : RequestArgs) (x y : History L)
      → Over (is_lost (some error) resynced) requests args x
      → Ended k c y
      → Over (is_lost (if b then some error else none) resynced) requests args (if b then x else y)
  Over-if true error resynced requests args x y v w = v
  Over-if false error resynced requests args x y v w = w

  parsed_chunk-Over :
      (current sequence : ℕ) (r : Response) (ok : Bool) (h : History L)
      → r.final ≡ true
      → Over
          (is_lost
            (if not ok
              then some (pos k.results.protocol_error)
              else if h.store.staging_invalid
              then some (pos out_of_memory)
              else none)
            h.resynced)
          h.requests
          (newest_page h)
          (parsed_chunk k c heap q current sequence r ok h)
  unfolding parsed_chunk
  parsed_chunk-Over current sequence r false h f =
      rw f (fail-Over current (pos k.results.protocol_error) 0 h)
  parsed_chunk-Over current sequence r true h f = rw f (
      Over-if h.store.staging_invalid (pos out_of_memory) h.resynced h.requests (newest_page h) _ _
        (fail-Over current (pos out_of_memory) 0 (record h { store = clear_staging h.store }))
        (finish-Ended k c current r.flags h))

  -- The last answer of the request that is awaited, unless it is a cancellation, ends the operation, and no
  -- answer is awaited any more; but where it amounts to the error that the page is lost, and the history did
  -- not ask anew before, then the layer is given a request for the newest page, the history waits for its
  -- answer where the layer takes it, and it has asked anew.
  pub completed-Over :
      (current : ℕ) (r : Response) (h : History L)
      → r.final ≡ true
      → is_cancelled r.outcome ≡ false
      → Over
          (is_lost (failure r h) h.resynced)
          h.requests
          (newest_page h)
          (completed k c heap q current h.pending r h)
  unfolding completed error_from_response
  completed-Over current r h f n =
      let own : (not (h.pending == h.pending) || is_cancelled r.outcome) ≡ false =
        ground (arith, n) in
      elim (Bool-cases (is_response r.outcome && is_code r.result k.results.ok)) [
        | inl e ↦
            rw (own, e)
              (parsed_chunk-Over current h.pending r (parse k c heap r.payload h.store).0
                (record h { store = (parse k c heap r.payload h.store).1 }) f)
        | inr e ↦
            rw (own, e, f) (fail-Over current (error_from_response k.results r) r.retry_after h)
      ]
