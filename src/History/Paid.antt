-- ===== src/History/Paid.antt =====
-- Merging a page keeps the budget's account: what is held or staged stays paid for.
use tele_bezel.Base.{
  ℕ, zero, suc, ◌+◌, ◌%◌, ◌^◌, ◌-◌, ◌≤◌, ◌≡◌, refl, ap, inl, inr, not, ◌&&◌, ◌||◌, List, [], ◌∷◌,
  ltb, leb, arith, length, take, drop, get_or, Bool-cases, length-take,
}
use tele_bezel.Text.{Budget}
use tele_bezel.Text.Budgets.{costs}
use tele_bezel.History.{Codes, Config, Message, Store, no_message}
use tele_bezel.History.Staging.{strings}
use tele_bezel.History.Merging.{
  place, sort_onto, reversed, sort, append_one, append_loop, append_staging, accept_one,
  accept_loop, prepend_staging, prepend_accepted, shrink_loop, drop_newest, evict_loop,
  evict_newest, remove_from, merge_page, is_apart, over_limits, kept, newest_key, oldest_key,
  is_empty, joined, join, same_album, has_text, album_step, album_loop, merge_albums,
}
use tele_bezel.History.Staged.{staging-append_loop, staging-evict_loop, staging-shrink_loop}
use tele_bezel.History.Memory.{
  weight, IsPaid, free_message-paid, free_messages-paid, weight-append, weight-take-drop,
  clear_staging-IsPaid,
}

-- Sorting keeps the messages.
weight-place :
    (m : Message) (xs : List Message) → weight (place m xs) ≡ costs (strings m) + weight xs
unfolding place
weight-place m [] = refl
weight-place m (x ∷ xs) = ground (arith, weight-place m xs)

weight-sort_onto : (xs ms : List Message) → weight (sort_onto xs ms) ≡ weight xs + weight ms
unfolding sort_onto
weight-sort_onto xs [] = omega arith
weight-sort_onto xs (m ∷ ms) = omega (arith, weight-sort_onto (place m xs) ms, weight-place m xs)

pub weight-reversed : (acc xs : List Message) → weight (reversed acc xs) ≡ weight acc + weight xs
weight-reversed acc [] = omega arith
weight-reversed acc (x ∷ xs) = omega (arith, weight-reversed (x ∷ acc) xs)

pub weight-sort : (ms : List Message) → weight (sort ms) ≡ weight ms
unfolding sort
weight-sort ms = omega (arith, weight-reversed [] (sort_onto [] ms), weight-sort_onto [] ms)

-- The loops of `append_staging` and `prepend_staging`; `w` is what else is to be paid for.
append_one-paid :
    (c : Config) (m : Message) (s : Store) (w : ℕ)
    → weight s.items + (costs (strings m) + w) ≤ s.budget.used
    → weight (append_one c m s).items + w ≤ (append_one c m s).budget.used
unfolding append_one
append_one-paid c m s w h =
    elim (Bool-cases (
      (not (is_empty s.items) && leb m.key (newest_key s.items))
      || leb c.capacity (length s.items))) [
        | inl e ↦
            rw (e, append_one) (free_message-paid s.budget m (weight s.items + w) (omega arith))
        | inr e ↦ rw (e, append_one) (omega (arith, weight-append s.items (m ∷ [])))
      ]

append_loop-paid :
    (c : Config) (ms : List Message) (s : Store) (w : ℕ)
    → weight s.items + (weight ms + w) ≤ s.budget.used
    → weight (append_loop c ms s).items + w ≤ (append_loop c ms s).budget.used
unfolding append_loop
append_loop-paid c [] s w h = omega arith
append_loop-paid c (m ∷ ms) s w h =
    append_loop-paid c ms (append_one c m s) w (append_one-paid c m s (weight ms + w) (omega arith))

pub append_staging-IsPaid : (c : Config) (s : Store) → IsPaid s → IsPaid (append_staging c s)
unfolding append_staging
append_staging-IsPaid c s h =
    let s' : Store = record s { staging = [] } in
    omega (
      arith,
      append_loop-paid c s.staging s' 0 (omega arith),
      ap weight (staging-append_loop c s.staging s'),
    )

remove_from-IsPaid : (n : ℕ) (s : Store) → IsPaid s → IsPaid (remove_from n s)
unfolding remove_from
remove_from-IsPaid n s h =
    free_messages-paid s.budget (drop n s.items) (weight (take n s.items) + weight s.staging)
      (omega (arith, weight-take-drop n s.items))

pub merge_page-IsPaid : (c : Config) (s : Store) → IsPaid s → IsPaid (merge_page c s)
unfolding merge_page
merge_page-IsPaid c s h =
    elim (Bool-cases (is_apart c s || over_limits c s ((kept s + length s.staging) % 2 ^ 16))) [
      | inl e ↦ rw e (clear_staging-IsPaid s h)
      | inr e ↦
          rw e (append_staging-IsPaid c (remove_from (kept s) s) (remove_from-IsPaid (kept s) s h))
    ]

weight-last :
    (n : ℕ) (xs : List Message)
    → length xs ≡ suc n
    → weight (take n xs) + costs (strings (get_or xs n no_message)) ≡ weight xs
weight-last n [] e = absurd (omega arith)
weight-last zero (x ∷ []) e = omega arith
weight-last zero (x ∷ y ∷ xs) e = absurd (omega arith)
weight-last (suc n) (x ∷ xs) e = omega (arith, weight-last n xs (omega arith))

-- Dropping the newest message, where `n` is its index.
drop_newest-paid :
    (n : ℕ) (s : Store) (w : ℕ)
    → length s.items ≡ suc n
    → weight s.items + w ≤ s.budget.used
    → weight (drop_newest n s).items + w ≤ (drop_newest n s).budget.used
unfolding drop_newest
drop_newest-paid n s w e h =
    free_message-paid s.budget (get_or s.items n no_message) (weight (take n s.items) + w)
      (omega (arith, weight-last n s.items e))

pub length-drop_newest :
    (n : ℕ) (s : Store) → length s.items ≡ suc n → length (drop_newest n s).items ≡ n
unfolding drop_newest
length-drop_newest n s e = omega (arith, length-take n s.items)

evict_loop-paid :
    (n : ℕ) (c : Config) (s : Store) (w : ℕ)
    → length s.items ≡ n
    → weight s.items + w ≤ s.budget.used
    → weight (evict_loop n c s).items + w ≤ (evict_loop n c s).budget.used
unfolding evict_loop
evict_loop-paid zero c s w e h = h
evict_loop-paid (suc n) c s w e h = elim (Bool-cases (over_limits c s (suc n))) [
  | inl o ↦
      rw (o, evict_loop)
        (evict_loop-paid n c (drop_newest n s) w (length-drop_newest n s e)
          (drop_newest-paid n s w e h))
  | inr o ↦ rw (o, evict_loop) h
]

pub evict_newest-IsPaid : (c : Config) (s : Store) → IsPaid s → IsPaid (evict_newest c s)
unfolding evict_newest
evict_newest-IsPaid c s h = omega (
  arith,
  evict_loop-paid (length s.items) c s (weight s.staging) refl h,
  ap weight (staging-evict_loop (length s.items) c s),
)

shrink_loop-paid :
    (n room : ℕ) (s : Store) (w : ℕ)
    → length s.items ≡ n
    → weight s.items + w ≤ s.budget.used
    → weight (shrink_loop n room s).items + w ≤ (shrink_loop n room s).budget.used
unfolding shrink_loop
shrink_loop-paid zero room s w e h = h
shrink_loop-paid (suc n) room s w e h = elim (Bool-cases (ltb room (suc n))) [
  | inl o ↦
      rw (o, shrink_loop)
        (shrink_loop-paid n room (drop_newest n s) w (length-drop_newest n s e)
          (drop_newest-paid n s w e h))
  | inr o ↦ rw (o, shrink_loop) h
]

accept_one-paid :
    (c : Config) (oldest : ℕ) (m : Message) (st : List Message × Budget) (w : ℕ)
    → weight st.0 + (costs (strings m) + w) ≤ st.1.used
    → weight (accept_one c oldest m st).0 + w ≤ (accept_one c oldest m st).1.used
unfolding accept_one
accept_one-paid c oldest m (accepted, b) w h =
    elim (Bool-cases (ltb m.key oldest && ltb (length accepted) c.capacity)) [
      | inl e ↦ rw (e, accept_one) (omega (arith, weight-append accepted (m ∷ [])))
      | inr e ↦ rw (e, accept_one) (free_message-paid b m (weight accepted + w) (omega arith))
    ]

accept_loop-paid :
    (c : Config) (oldest : ℕ) (ms : List Message) (st : List Message × Budget) (w : ℕ)
    → weight st.0 + (weight ms + w) ≤ st.1.used
    → weight (accept_loop c oldest ms st).0 + w ≤ (accept_loop c oldest ms st).1.used
unfolding accept_loop
accept_loop-paid c oldest [] st w h = omega arith
accept_loop-paid c oldest (m ∷ ms) st w h =
    accept_loop-paid c oldest ms (accept_one c oldest m st) w
      (accept_one-paid c oldest m st (weight ms + w) (omega arith))

prepend_accepted-IsPaid :
    (c : Config) (accepted : List Message) (s : Store)
    → s.staging ≡ []
    → weight s.items + weight accepted ≤ s.budget.used
    → IsPaid (prepend_accepted c accepted s)
unfolding prepend_accepted
prepend_accepted-IsPaid c accepted s e h =
    let n : ℕ = length s.items in
    let room : ℕ = c.capacity - length accepted in
    omega (
      arith,
      weight-append accepted (shrink_loop n room s).items,
      shrink_loop-paid n room s (weight accepted) refl h,
      ap weight (staging-shrink_loop n room s),
      ap weight e,
    )

pub prepend_staging-IsPaid : (c : Config) (s : Store) → IsPaid s → IsPaid (prepend_staging c s)
unfolding prepend_staging
prepend_staging-IsPaid c s h =
    let st : List Message × Budget = accept_loop c (oldest_key s.items) s.staging ([], s.budget) in
    let paid : weight st.0 + weight s.items ≤ st.1.used =
      accept_loop-paid c (oldest_key s.items) s.staging ([], s.budget) (weight s.items)
        (omega arith) in
    elim (Bool-cases (is_empty st.0)) [
      | inl e ↦ rw e (omega arith)
      | inr e ↦ rw e (
          prepend_accepted-IsPaid c st.0 (record s { staging = []; budget = st.1 }) refl
            (omega arith))
    ]

module _ (k : Codes) where
  pub costs-join :
      (last m : Message)
      → costs (strings (join k last m).0) + costs (strings (join k last m).1)
        ≡ costs (strings last) + costs (strings m)
  unfolding join joined
  costs-join last m = elim (Bool-cases (not (has_text (joined k last m).text) && has_text m.text)) [
    | inl e ↦ rw (e, join) (omega arith)
    | inr e ↦ rw (e, join) refl
  ]

  album_step-paid :
      (m : Message) (st : List Message × Budget) (w : ℕ)
      → weight st.0 + (costs (strings m) + w) ≤ st.1.used
      → weight (album_step k m st).0 + w ≤ (album_step k m st).1.used
  unfolding album_step
  album_step-paid m ([], b) w h = omega arith
  album_step-paid m (last ∷ xs, b) w h = elim (Bool-cases (same_album k last m)) [
    | inl e ↦
        rw (e, album_step)
          (free_message-paid b (join k last m).1 (costs (strings (join k last m).0) + weight xs + w)
            (omega (arith, costs-join last m)))
    | inr e ↦ rw (e, album_step) (omega arith)
  ]

  album_loop-paid :
      (ms : List Message) (st : List Message × Budget) (w : ℕ)
      → weight st.0 + (weight ms + w) ≤ st.1.used
      → weight (album_loop k ms st).0 + w ≤ (album_loop k ms st).1.used
  unfolding album_loop
  album_loop-paid [] st w h = omega arith
  album_loop-paid (m ∷ ms) st w h =
      album_loop-paid ms (album_step k m st) w (album_step-paid m st (weight ms + w) (omega arith))

  pub merge_albums-IsPaid : (s : Store) → IsPaid s → IsPaid (merge_albums k s)
  unfolding merge_albums
  merge_albums-IsPaid s h = omega (
    arith,
    album_loop-paid s.items ([], s.budget) (weight s.staging) (omega arith),
    weight-reversed [] (album_loop k s.items ([], s.budget)).0,
  )
