-- ===== src/Connection/Polling.antt =====
-- The polls of a connection: how long it is polled in a state, and how often.
use tele_bezel.Base.{
  ℕ, ◌+◌, ◌*◌, ◌%◌, ◌^◌, ◌≤◌, ◌≡◌, refl, Bool, true, false, not, ◌&&◌, ◌||◌, Option, none, some,
  List, [], ◌∷◌, ltb, take, ◌==◌, if◌then◌else◌, arith, Bool-cases, inl, inr,
}
use tele_bezel.Codec.Layouts.{StatusRecord}
use tele_bezel.Requests.Layer.{Response, no_args}
use tele_bezel.Sending.{Requests, is_empty}
use tele_bezel.Sending.Calls.{is_response, is_cancelled}
use tele_bezel.Errors.{is_code}
use tele_bezel.Connection.{
  Codes, Connection, Call, called, cancel, changed, reload, limit_of, delay_of, waits, arm, enter,
  proceed, apply_state, apply, failed, received, completed, init, close, open_account, summary,
  refresh, set_active, poll, timer, is_same, rest_given, status_of,
}

-- A call of the module, or an answer.
pub data Event : Type 0 where
  opened : List ℕ → Event
  told : ℕ → Bool → Event
  refreshed timed closed : Event
  shown : Bool → Event
  answered : ℕ → Response → Event

module _ {L : Type 0} (k : Codes) (q : Requests L) where
  -- The window is within the limit of the state, and has at least two seconds for each poll.
  record IsCounted (c : Connection L) : Type 0 where
    pub window_in : c.window ≤ limit_of k q c.state
    pub polls_in : c.polls * 2000 ≤ c.window

  -- The window is within the limit of the state, and so is its next poll, where one is to come; each poll
  -- has two seconds of the window, and so has the next one.
  pub record IsTimed (c : Connection L) : Type 0 where
    pub window_in : c.window ≤ limit_of k q c.state
    pub polls_in : c.polls * 2000 ≤ c.window
    pub next_in : (if waits k q c then c.window + c.delay else 0) ≤ limit_of k q c.state
    pub delay_in : (if c.polling then 2000 else 0) ≤ c.delay

  counted : (c : Connection L) → IsTimed c → IsCounted c
  counted c h = record { window_in = h.window_in; polls_in = h.polls_in }

  limit_of_bound : (state : ℕ) → limit_of k q state ≤ 20000
  unfolding limit_of
  limit_of_bound state = ground arith

  delay_of_bound : (state polls : ℕ) → 2000 ≤ delay_of k q state polls
  unfolding delay_of
  delay_of_bound state polls = ground arith

  arm-IsTimed : (c : Connection L) → IsCounted c → 2000 ≤ c.delay → IsTimed (arm k q c)
  unfolding arm
  arm-IsTimed c h d = record {
    window_in = ground (arith, h.window_in);
    polls_in = ground (arith, h.polls_in);
    next_in = ground (arith, h.window_in);
    delay_in = ground (arith, d);
  }

  enter-IsTimed : (state : ℕ) (c : Connection L) → IsTimed (enter k q state c)
  unfolding enter
  enter-IsTimed state c =
      arm-IsTimed _ (record { window_in = omega arith; polls_in = omega arith })
        (delay_of_bound state 0)

  proceed-IsTimed : (c : Connection L) → IsCounted c → IsTimed (proceed k q c)
  unfolding proceed
  proceed-IsTimed c h =
      arm-IsTimed (record c { delay = delay_of k q c.state c.polls })
        (record { window_in = h.window_in; polls_in = h.polls_in }) (delay_of_bound c.state c.polls)

  IsTimed-if :
      (b : Bool) (c c' : Connection L) → IsTimed c → IsTimed c' → IsTimed (if b then c else c')
  IsTimed-if true c c' h h' = h
  IsTimed-if false c c' h h' = h'

  called-IsTimed : (a : Call) (c : Connection L) → IsTimed c → IsTimed (called k q a c)
  called-IsTimed a c h = record {
    window_in = h.window_in;
    polls_in = h.polls_in;
    next_in = h.next_in;
    delay_in = h.delay_in;
  }

  -- Where nothing is to be polled, the window is all that counts.
  IsTimed-idle : (c : Connection L) → IsCounted c → c.polling ≡ false → IsTimed c
  IsTimed-idle c h e = record {
    window_in = h.window_in;
    polls_in = h.polls_in;
    next_in = rw e (omega arith);
    delay_in = rw e (omega arith);
  }

  proceed_if-IsTimed :
      (b : Bool) (c : Connection L)
      → IsCounted c
      → (c.polling ≡ true → b ≡ true)
      → IsTimed (if b then proceed k q c else c)
  proceed_if-IsTimed true c h e = proceed-IsTimed c h
  proceed_if-IsTimed false c h e =
      IsTimed-idle c h
        (elim (Bool-cases c.polling) [ inl p ↦ absurd (ground (arith, e p)) | inr p ↦ p ])

  -- The status of an answer: the request is over, so the window counts.
  apply_polled-IsTimed :
      (state : ℕ) (proxy : Bool) (c : Connection L)
      → IsCounted c
      → IsTimed (apply_state k q state proxy true c)
  unfolding apply_state
  apply_polled-IsTimed state proxy c h =
      let c' : Connection L = record c { proxy = proxy } in
      let entered : Connection L = enter k q state c' in
      let e = called-IsTimed changed entered (enter-IsTimed state c') in
      IsTimed-if (is_same k q state c) _ _
        (called-IsTimed changed _ (
          proceed_if-IsTimed c.polling c'
            (record { window_in = h.window_in; polls_in = h.polls_in }) (λ p. p)))
        (IsTimed-if (c.known && not (c.state == k.ready) && state == k.ready) _ _
          (called-IsTimed reload _ e) e)

  -- The state of a summary.
  apply_told-IsTimed :
      (state : ℕ) (proxy : Bool) (c : Connection L)
      → IsTimed c
      → IsTimed (apply_state k q state proxy false c)
  unfolding apply_state
  apply_told-IsTimed state proxy c h =
      let c' : Connection L = record c { proxy = proxy } in
      IsTimed-if (is_same k q state c) _ _
        (called-IsTimed changed c' (record {
          window_in = h.window_in;
          polls_in = h.polls_in;
          next_in = h.next_in;
          delay_in = h.delay_in;
        }))
        (called-IsTimed changed _ (enter-IsTimed state c'))

  rest_given-IsCounted :
      (rest : List ℕ) (c : Connection L) → IsCounted c → IsCounted (rest_given k q rest c)
  rest_given-IsCounted [] c h = h
  rest_given-IsCounted (x ∷ rest) c h = record { window_in = h.window_in; polls_in = h.polls_in }

  received-IsTimed :
      (sequence : ℕ) (r : Response) (found : Option (StatusRecord × List ℕ)) (c : Connection L)
      → IsCounted c
      → IsTimed (received k q sequence r found c)
  unfolding received failed apply
  received-IsTimed sequence r none c h =
      let c' : Connection L =
        if r.final then c else record c { requests = q.cancel c.requests sequence } in
      let h' : IsCounted c' = record {
        window_in = ground (arith, h.window_in);
        polls_in = ground (arith, h.polls_in);
      } in
      proceed_if-IsTimed c'.polling c' h' (λ p. p)
  received-IsTimed sequence r (some found) c h =
      apply_polled-IsTimed
        (if ltb k.ready found.0.connection then k.connecting else found.0.connection)
        (not (found.0.proxy == 0)) (rest_given k q found.1 c) (rest_given-IsCounted found.1 c h)

  completed-IsTimed :
      (sequence : ℕ) (r : Response) (c : Connection L)
      → IsTimed c
      → IsTimed (completed k q sequence r c)
  unfolding completed
  completed-IsTimed sequence r c h =
      IsTimed-if (not (sequence == c.pending) || is_cancelled r.outcome) _ _ h (
        received-IsTimed sequence r
          (if is_response r.outcome && is_code r.result k.result_ok
            then status_of k q r.payload
            else none)
          (record c { pending = 0 }) (record { window_in = h.window_in; polls_in = h.polls_in }))

  summary-IsTimed :
      (state : ℕ) (proxy : Bool) (c : Connection L)
      → IsTimed c
      → IsTimed (summary k q state proxy c)
  unfolding summary apply
  summary-IsTimed state proxy c h =
      IsTimed-if (is_empty c.account) _ _ h
        (apply_told-IsTimed (if ltb k.ready state then k.connecting else state) proxy c h)

  open_account-IsTimed :
      (account : List ℕ) (c : Connection L) → IsTimed (open_account k q account c)
  unfolding open_account close
  open_account-IsTimed account c =
      IsTimed-idle _ (record { window_in = omega arith; polls_in = omega arith }) refl

  close-IsTimed : (c : Connection L) → IsTimed (close k q c)
  unfolding close
  close-IsTimed c = IsTimed-idle _ (record { window_in = omega arith; polls_in = omega arith }) refl

  refresh-IsTimed : (c : Connection L) → IsTimed c → IsTimed (refresh k q c)
  unfolding refresh
  refresh-IsTimed c h = IsTimed-if (is_empty c.account) _ _ h (
      IsTimed-idle _
        (record { window_in = ground (arith, h.window_in); polls_in = ground (arith, h.polls_in) })
        refl)

  shown_arm-IsTimed :
      (c : Connection L) → IsTimed c → IsTimed (arm k q (record c { active = true }))
  unfolding arm
  shown_arm-IsTimed c h = elim (Bool-cases c.polling) [
    | inl e ↦
        arm-IsTimed (record c { active = true })
          (record { window_in = h.window_in; polls_in = h.polls_in }) (rw e at h.delay_in)
    | inr e ↦
        rw (e, arm)
          (IsTimed-idle (called k q cancel (record c { active = true; polling = false }))
            (record { window_in = h.window_in; polls_in = h.polls_in }) refl)
  ]

  set_active-IsTimed :
      (active : Bool) (c : Connection L) → IsTimed c → IsTimed (set_active k q active c)
  unfolding set_active
  set_active-IsTimed true c h = shown_arm-IsTimed c h
  set_active-IsTimed false c h = record {
    window_in = h.window_in;
    polls_in = h.polls_in;
    next_in = ground arith;
    delay_in = h.delay_in;
  }

  poll_counted :
      (c : Connection L)
      → waits k q c ≡ true
      → IsTimed c
      → c.window + c.delay ≤ 20000
      → ((c.polls + 1) % 2 ^ 8) * 2000 ≤ c.window + c.delay
  poll_counted c w h bound =
      let spaced : 2000 ≤ c.delay = elim (Bool-cases c.polling) [
        | inl e ↦ rw e at h.delay_in
        | inr e ↦ absurd (ground (arith, e, w))
      ] in
      omega (arith, h.polls_in)

  poll-IsTimed : (c : Connection L) → waits k q c ≡ true → IsTimed c → IsTimed (poll k q c)
  unfolding poll
  poll-IsTimed c w h =
      let c' : Connection L = record c {
        window = c.window + c.delay;
        polls = (c.polls + 1) % 2 ^ 8;
        requests =
            (q.submit c.requests
              (record no_args { kind = k.request_events; account = take 36 c.account }) c.timeout 1
              false).0;
        pending =
            (q.submit c.requests
              (record no_args { kind = k.request_events; account = take 36 c.account }) c.timeout 1
              false).1;
      } in
      let within : c'.window ≤ limit_of k q c'.state = rw w at h.next_in in
      let longer : c'.polls * 2000 ≤ c'.window =
        poll_counted c w h (omega (arith, within, limit_of_bound c.state)) in
      elim (Bool-cases (c'.pending == 0)) [
        | inl e ↦
            rw (e, poll) (proceed-IsTimed c' (record { window_in = within; polls_in = longer }))
        | inr e ↦
            rw (e, poll)
              (record {
                window_in = within;
                polls_in = longer;
                next_in = ground (arith, e);
                delay_in = h.delay_in;
              })
      ]

  timer-IsTimed : (c : Connection L) → IsTimed c → IsTimed (timer k q c)
  unfolding timer
  timer-IsTimed c h = elim (Bool-cases (waits k q c)) [
    | inl w ↦ IsTimed-if (not (waits k q c) || is_empty c.account) _ _ h (poll-IsTimed c w h)
    | inr w ↦ rw (w, timer) h
  ]

  abbrev pub call : Event → Connection L → Connection L
  call (opened account) c = open_account k q account c
  call (told state proxy) c = summary k q state proxy c
  call refreshed c = refresh k q c
  call timed c = timer k q c
  call closed c = close k q c
  call (shown active) c = set_active k q active c
  call (answered sequence r) c = completed k q sequence r c

  -- The connection after a list of calls, the last one first.
  abbrev pub after : L → ℕ → List Event → Connection L
  after requests timeout [] = init k q requests timeout
  after requests timeout (e ∷ es) = call e (after requests timeout es)

  -- After any calls and answers, the time that a connection has been polled in its state is within the
  -- state's limit, and stays so with the delay to the next poll where one is to come; it has at least two
  -- seconds for each poll that was counted in the state, and the delay of a polled connection is two
  -- seconds at least.
  pub after-IsTimed :
      (requests : L) (timeout : ℕ) (es : List Event) → IsTimed (after requests timeout es)
  unfolding init
  after-IsTimed requests timeout [] =
      IsTimed-idle _ (record { window_in = omega arith; polls_in = omega arith }) refl
  after-IsTimed requests timeout (opened account ∷ es) =
      open_account-IsTimed account (after requests timeout es)
  after-IsTimed requests timeout (told state proxy ∷ es) =
      summary-IsTimed state proxy (after requests timeout es) (after-IsTimed requests timeout es)
  after-IsTimed requests timeout (refreshed ∷ es) =
      refresh-IsTimed (after requests timeout es) (after-IsTimed requests timeout es)
  after-IsTimed requests timeout (timed ∷ es) =
      timer-IsTimed (after requests timeout es) (after-IsTimed requests timeout es)
  after-IsTimed requests timeout (closed ∷ es) = close-IsTimed (after requests timeout es)
  after-IsTimed requests timeout (shown active ∷ es) =
      set_active-IsTimed active (after requests timeout es) (after-IsTimed requests timeout es)
  after-IsTimed requests timeout (answered sequence r ∷ es) =
      completed-IsTimed sequence r (after requests timeout es) (after-IsTimed requests timeout es)
