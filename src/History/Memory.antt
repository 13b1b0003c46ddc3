-- ===== src/History/Memory.antt =====
-- The budget pays for every string that is held: `used` is at least what the strings of the held and
-- the staged messages cost.
use tele_bezel.Base.{
  ℕ, zero, suc, ◌+◌, ◌≤◌, ◌≡◌, refl, inl, inr, Bool, true, ◌||◌, Option, none, some, List, [], ◌∷◌,
  ◌++◌, leb, arith, length, take, drop, Bool-cases, ◌==◌,
}
use tele_bezel.Codec.{Span}
use tele_bezel.Codec.Layouts.{MessageRecord}
use tele_bezel.Text.{Budget}
use tele_bezel.Text.Copies.{free_strings-paid, Freed, free_strings-Freed, budget_copy-paid}
use tele_bezel.Text.Budgets.{costs}
use tele_bezel.History.{Codes, Config, Message, Store}
use tele_bezel.History.Staging.{
  strings, free_message, free_messages, clear_items, clear_staging, with_reply, message_of, admit,
  stage_keyed, stage, copy, quote, staged_id, is_lost,
}

-- What the strings of messages cost.
abbrev pub weight : List Message → ℕ
weight [] = 0
weight (m ∷ ms) = costs (strings m) + weight ms

pub free_message-paid :
    (b : Budget) (m : Message) (w : ℕ)
    → costs (strings m) + w ≤ b.used
    → w ≤ (free_message b m).used
unfolding free_message
free_message-paid b m w h = free_strings-paid b (strings m) w h

pub free_message-Freed : (b : Budget) (m : Message) → Freed b (free_message b m)
unfolding free_message
free_message-Freed b m = free_strings-Freed b (strings m)

pub free_messages-paid :
    (b : Budget) (ms : List Message) (w : ℕ)
    → weight ms + w ≤ b.used
    → w ≤ (free_messages b ms).used
unfolding free_messages
free_messages-paid b [] w h = omega arith
free_messages-paid b (m ∷ ms) w h =
    free_messages-paid (free_message b m) ms w (free_message-paid b m (weight ms + w) (omega arith))

-- `used` covers the strings that the store holds.
abbrev pub IsPaid : Store → Type 0
IsPaid s = weight s.items + weight s.staging ≤ s.budget.used

pub weight-append : (xs ys : List Message) → weight (xs ++ ys) ≡ weight xs + weight ys
weight-append [] ys = omega arith
weight-append (x ∷ xs) ys = omega (arith, weight-append xs ys)

pub weight-take-drop :
    (n : ℕ) (xs : List Message) → weight (take n xs) + weight (drop n xs) ≡ weight xs
weight-take-drop zero xs = omega arith
weight-take-drop (suc n) [] = refl
weight-take-drop (suc n) (x ∷ xs) = omega (arith, weight-take-drop n xs)

pub clear_items-IsPaid : (s : Store) → IsPaid s → IsPaid (clear_items s)
unfolding clear_items
clear_items-IsPaid s h = omega (arith, free_messages-paid s.budget s.items (weight s.staging) h)

pub clear_staging-IsPaid : (s : Store) → IsPaid s → IsPaid (clear_staging s)
unfolding clear_staging
clear_staging-IsPaid s h =
    omega (arith, free_messages-paid s.budget s.staging (weight s.items) (omega arith))

module _ (k : Codes) (c : Config) (heap : Budget → Span → Bool) where
  with_reply-paid :
      (r : MessageRecord) (m : Message) (b : Budget) (w : ℕ)
      → w + costs (strings m) ≤ b.used
      → w + costs (strings (with_reply k c heap r m b).0) ≤ (with_reply k c heap r m b).1.used
  unfolding with_reply
  with_reply-paid r m b w h = elim (Bool-cases (r.reply_id.length == 0)) [
    | inl e ↦ rw e h
    | inr e ↦
        let v1 : Span = record {
          bytes = quote r.reply_sender r.reply_text;
          length = length (quote r.reply_sender r.reply_text);
        } in
        let b1 : Budget = (copy k c heap b v1 96).1 in
        let b2 : Budget = (copy k c heap b1 r.reply_id 20).1 in
        rw e (
          omega (
            arith,
            budget_copy-paid (heap b v1) b v1 96 true,
            budget_copy-paid (heap b1 r.reply_id) b1 r.reply_id 20 true,
            budget_copy-paid (heap b2 r.reply_sender) b2 r.reply_sender 32 true,
          ))
  ]

  message_of-paid :
      (r : MessageRecord) (id : List ℕ) (key : ℕ) (b : Budget) (w : ℕ)
      → w ≤ b.used
      → w + costs (strings (message_of k c heap r id key b).0)
        ≤ (message_of k c heap r id key b).1.used
  unfolding message_of
  message_of-paid r id key b w h =
      let b1 : Budget = (copy k c heap b r.sender 32).1 in
      let b2 : Budget = (copy k c heap b1 r.signature 32).1 in
      let b3 : Budget = (copy k c heap b2 r.forward 48).1 in
      let b4 : Budget = (copy k c heap b3 r.extra 48).1 in
      with_reply-paid r _ (copy k c heap b4 r.text c.text_limit).1 w (
        omega (
          arith,
          budget_copy-paid (heap b r.sender) b r.sender 32 true,
          budget_copy-paid (heap b1 r.signature) b1 r.signature 32 true,
          budget_copy-paid (heap b2 r.forward) b2 r.forward 48 true,
          budget_copy-paid (heap b3 r.extra) b3 r.extra 48 true,
          budget_copy-paid (heap b4 r.text) b4 r.text c.text_limit true,
        ))

  admit-IsPaid :
      (r : MessageRecord) (m : Message) (b : Budget) (s : Store)
      → weight s.items + weight s.staging + costs (strings m) ≤ b.used
      → IsPaid (admit k c heap r (m, b) s)
  unfolding admit
  admit-IsPaid r m b s h =
      elim (Bool-cases
        (is_lost r.text m.text || is_lost r.sender m.sender || is_lost r.forward m.forward)) [
          | inl e ↦ rw e (free_message-paid b m (weight s.items + weight s.staging) (omega arith))
          | inr e ↦ rw e (omega (arith, weight-append s.staging (m ∷ [])))
        ]

  stage_keyed-IsPaid :
      (r : MessageRecord) (o : Option (List ℕ × ℕ)) (s : Store)
      → IsPaid s
      → IsPaid (stage_keyed k c heap r o s).1
  unfolding stage_keyed
  stage_keyed-IsPaid r none s h = h
  stage_keyed-IsPaid r (some (id, key)) s h =
      admit-IsPaid r (message_of k c heap r id key s.budget).0
        (message_of k c heap r id key s.budget).1 s
        (message_of-paid r id key s.budget (weight s.items + weight s.staging) h)

  -- `stage` takes every string of the message from the budget.
  pub stage-IsPaid : (r : MessageRecord) (s : Store) → IsPaid s → IsPaid (stage k c heap r s).1
  unfolding stage
  stage-IsPaid r s h = elim (Bool-cases (leb c.page_limit (length s.staging))) [
    | inl e ↦ rw e h
    | inr e ↦ rw e (stage_keyed-IsPaid r (staged_id r.id) s h)
  ]
