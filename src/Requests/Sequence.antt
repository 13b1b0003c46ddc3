-- ===== src/Requests/Sequence.antt =====
-- The sequence numbers of requests: the search for a free one ends, and what it gives is new.
use tele_bezel.Base.{
  ℕ, zero, suc, ◌+◌, ◌-◌, ◌%◌, ◌^◌, ◌≤◌, ◌<◌, ◌≡◌, refl, ◌∙◌, sym, subst, Bool, true, false, not,
  ◌&&◌, ◌||◌, Option, none, some, List, [], ◌∷◌, arith, ltb, ◌==◌, if◌then◌else◌, Bool-cases,
  Option-cases, inl, inr, ◌⊎◌, length,
}
use tele_bezel.Requests.Layer.{RequestArgs, Slot, State, Ports, holds, search_from, find, pending}
use tele_bezel.Requests.Calls.{is_some, pick_sequence, pick_fuel, submit}

-- The active slots with a sequence above `n`.
above : ℕ → List Slot → ℕ
above n [] = 0
above n (s ∷ slots) = (if s.active && ltb n s.sequence then 1 else 0) + above n slots

above-le : (n : ℕ) (slots : List Slot) → above n slots ≤ length slots
unfolding above
above-le n [] = omega arith
above-le n (s ∷ slots) = ground (arith, above-le n slots)

above_mono : (n : ℕ) (slots : List Slot) → above (n + 1) slots ≤ above n slots
unfolding above
above_mono n [] = omega arith
above_mono n (s ∷ slots) = ground (arith, above_mono n slots)

above_found :
    (n i : ℕ) (slots : List Slot)
    → is_some (search_from (holds (n + 1)) slots i) ≡ true
    → above (n + 1) slots < above n slots
unfolding above search_from
above_found n i [] h = cc
above_found n i (s ∷ slots) h = elim (Bool-cases (holds (n + 1) s)) [
  | inl e ↦ ground (arith, above_mono n slots)
  | inr e ↦ ground (arith, above_mono n slots, above_found n (i + 1) slots)
]

pending-search :
    (sequence i : ℕ) (slots : List Slot)
    → search_from (holds sequence) slots i ≡ none
    → pending slots sequence ≡ false
unfolding pending search_from
pending-search sequence i [] h = refl
pending-search sequence i (s ∷ slots) h = ground (arith, pending-search sequence (i + 1) slots)

-- A number that may be given out.
abbrev pub IsFree : List Slot → ℕ → Type 0
IsFree slots n = (0 < n) × (n ≤ 2 ^ 31 - 1) × (pending slots n ≡ false)

abbrev following : ℕ → ℕ
following n = (n + 1) % 2 ^ 32

abbrev taken : List Slot → ℕ → Bool
taken slots n = n == 0 || ltb (2 ^ 31 - 1) n || is_some (find slots n)

module _ (fuel : ℕ) (slots : List Slot) (n : ℕ) where
  pick-again :
      taken slots (following n) ≡ true
      → pick_sequence (suc fuel) slots n ≡ pick_sequence fuel slots (following n)
  unfolding pick_sequence
  pick-again h = rw (h, pick_sequence)

  pick-here :
      taken slots (following n) ≡ false → pick_sequence (suc fuel) slots n ≡ some (following n)
  unfolding pick_sequence
  pick-here h = rw (h, pick_sequence)

IsFree-of_not_taken : (slots : List Slot) (n : ℕ) → taken slots n ≡ false → IsFree slots n
unfolding find
IsFree-of_not_taken slots n h =
    (ground arith, ground arith, pending-search n 0 slots (ground (arith)))

pick-IsFree :
    (fuel : ℕ) (slots : List Slot) (n : ℕ) {q : ℕ}
    → pick_sequence fuel slots n ≡ some q
    → IsFree slots q
unfolding pick_sequence
pick-IsFree zero slots n h = absurd (ground arith)
pick-IsFree (suc fuel) slots n {q} h = elim (Bool-cases (taken slots (following n))) [
  | inl e ↦ pick-IsFree fuel slots (following n) (sym (pick-again fuel slots n e) ∙ h)
  | inr e ↦
      let same : following n ≡ q = cc (pick-here fuel slots n e, h) in
      subst (IsFree slots) same (IsFree-of_not_taken slots (following n) e)
]

abbrev Picks : ℕ → List Slot → ℕ → Type 0
Picks fuel slots n = (q : ℕ) × (pick_sequence fuel slots n ≡ some q)

pick_round :
    (fuel : ℕ) (slots : List Slot) (n : ℕ)
    → (taken slots (following n) ≡ true → Picks fuel slots (following n))
    → Picks (suc fuel) slots n
pick_round fuel slots n again = elim (Bool-cases (taken slots (following n))) [
  | inl e ↦ let (q, p) = again e in (q, pick-again fuel slots n e ∙ p)
  | inr e ↦ (following n, pick-here fuel slots n e)
]

above-taken :
    (slots : List Slot) (n : ℕ)
    → n + 1 < 2 ^ 31
    → taken slots (n + 1) ≡ true
    → above (n + 1) slots < above n slots
unfolding find
above-taken slots n h t = above_found n 0 slots (ground arith)

-- From a small number on, there are fewer rounds than slots above it.
pick_small :
    (fuel : ℕ) (slots : List Slot) (n : ℕ)
    → above n slots < fuel
    → n + above n slots + 1 < 2 ^ 31
    → Picks fuel slots n
pick_small zero slots n h k = absurd (omega arith)
pick_small (suc fuel) slots n h k =
    let step : following n ≡ n + 1 = omega arith in
    pick_round fuel slots n (λ t.
      let fewer : above (n + 1) slots < above n slots =
        above-taken slots n (omega arith) (rw step at t) in
      rw step (pick_small fuel slots (n + 1) (omega arith) (omega arith)))

-- With fuel for every number once, and for the slots again, a free number is found.
pick_any :
    (fuel : ℕ) (slots : List Slot) (n : ℕ)
    → n < 2 ^ 32
    → length slots ≤ 1000
    → 2 ^ 32 - n + (length slots + 1) ≤ fuel
    → Picks fuel slots n
pick_any zero slots n h l k = absurd (omega arith)
pick_any (suc fuel) slots n h l k = pick_round fuel slots n (λ t.
    elim (Bool-cases (n + 1 == 2 ^ 32)) [
      | inl e ↦
          let wrap : following n ≡ 0 = ground arith in
          rw wrap (
            pick_small fuel slots 0 (ground (arith, above-le 0 slots))
              (omega (arith, above-le 0 slots)))
      | inr e ↦ pick_any fuel slots (following n) (omega arith) l (ground arith)
    ])

zero_or_IsFree :
    (slots : List Slot) (b : Bool) (q : ℕ)
    → IsFree slots q
    → ((if b then q else 0) ≡ 0) ⊎ IsFree slots (if b then q else 0)
zero_or_IsFree slots true q h = inr h
zero_or_IsFree slots false q h = inl refl

module _ {W : Type 0} (p : Ports W) where
  -- `tb_requests_submit` gives 0, or a sequence that is at most `INT32_MAX` and was in flight in no slot.
  pub submit-IsFree :
      (s : State W) (args : RequestArgs) (timeout max_attempts : ℕ) (resend : Bool)
      (callback : Option ℕ)
      → let (_, q) = submit p s args timeout max_attempts resend callback in
        (q ≡ 0) ⊎ IsFree s.slots q
  unfolding submit
  submit-IsFree s args timeout max_attempts resend callback =
      elim (Option-cases (search_from (λ slot. not slot.active) s.slots 0)) [
        | inl e ↦ rw (e, submit) (inl refl)
        | inr (i, e) ↦ elim (Bool-cases (max_attempts == 0)) [
          | inl z ↦ rw (e, submit) (rw (z, submit) (inl refl))
          | inr z ↦ elim (Option-cases (pick_sequence pick_fuel s.slots s.next_sequence)) [
            | inl n ↦ rw (e, submit) (rw (z, submit) (rw (n, submit) (inl refl)))
            | inr (q, n) ↦
                rw (e, submit)
                  (rw (z, submit)
                    (rw (n, submit)
                      (zero_or_IsFree s.slots _ q
                        (pick-IsFree pick_fuel s.slots s.next_sequence n))))
          ]
        ]
      ]

-- The search for a sequence ends with a number, whatever number it starts from.
pub pick_sequence_total :
    (slots : List Slot) (n : ℕ)
    → length slots ≡ 4
    → n < 2 ^ 32
    → (q : ℕ) × (pick_sequence pick_fuel slots n ≡ some q) × IsFree slots q
pick_sequence_total slots n l h =
    let (q, e) = pick_any pick_fuel slots n h (omega arith) (omega arith) in
    (q, e, pick-IsFree pick_fuel slots n e)
