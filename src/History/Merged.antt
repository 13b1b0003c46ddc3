-- ===== src/History/Merged.antt =====
-- Merging a page keeps the held messages in the order of their keys.
use tele_bezel.Base.{
  ℕ, zero, suc, ◌+◌, ◌%◌, ◌^◌, ◌-◌, inl, inr, not, ◌&&◌, ◌||◌, List, [], ◌∷◌, ltb, leb, arith,
  length, Bool-cases,
}
use tele_bezel.Text.{Budget}
use tele_bezel.History.{Config, Message, Store}
use tele_bezel.History.Staging.{clear_staging}
use tele_bezel.History.Merging.{
  append_one, append_loop, append_staging, accept_one, accept_loop, prepend_staging,
  prepend_accepted, shrink_loop, drop_newest, evict_loop, remove_from, merge_page, is_apart,
  over_limits, kept, newest_key, oldest_key, is_empty,
}
use tele_bezel.History.Order.{
  Above, Below, IsSorted, Before, Above-le, append-IsSorted, Above-take, take-IsSorted,
  Before-single, Before-head, Before-tail, Before-append, Below-append, newest_key-Below,
}

append_one-IsSorted :
    (c : Config) (m : Message) (s : Store) → IsSorted s.items → IsSorted (append_one c m s).items
unfolding append_one
append_one-IsSorted c m s v =
    elim (Bool-cases (
      (not (is_empty s.items) && leb m.key (newest_key s.items))
      || leb c.capacity (length s.items))) [
        | inl e ↦ rw (e, append_one) v
        | inr e ↦
            rw (e, append_one)
              (append-IsSorted s.items (m ∷ []) v (tt, tt)
                (Before-single m s.items (newest_key-Below s.items m v (ground arith))))
      ]

append_loop-IsSorted :
    (c : Config) (ms : List Message) (s : Store)
    → IsSorted s.items
    → IsSorted (append_loop c ms s).items
unfolding append_loop
append_loop-IsSorted c [] s v = v
append_loop-IsSorted c (m ∷ ms) s v =
    append_loop-IsSorted c ms (append_one c m s) (append_one-IsSorted c m s v)

drop_newest-IsSorted : (n : ℕ) (s : Store) → IsSorted s.items → IsSorted (drop_newest n s).items
unfolding drop_newest
drop_newest-IsSorted n s v = take-IsSorted n s.items v

pub evict_loop-IsSorted :
    (n : ℕ) (c : Config) (s : Store) → IsSorted s.items → IsSorted (evict_loop n c s).items
unfolding evict_loop
evict_loop-IsSorted zero c s v = v
evict_loop-IsSorted (suc n) c s v = elim (Bool-cases (over_limits c s (suc n))) [
  | inl e ↦
      rw (e, evict_loop) (evict_loop-IsSorted n c (drop_newest n s) (drop_newest-IsSorted n s v))
  | inr e ↦ rw (e, evict_loop) v
]

pub merge_page-IsSorted :
    (c : Config) (s : Store) → IsSorted s.items → IsSorted (merge_page c s).items
unfolding merge_page clear_staging append_staging remove_from
merge_page-IsSorted c s v =
    elim (Bool-cases (is_apart c s || over_limits c s ((kept s + length s.staging) % 2 ^ 16))) [
      | inl e ↦ rw e v
      | inr e ↦ rw e (append_loop-IsSorted c s.staging _ (take-IsSorted (kept s) s.items v))
    ]

pub append_staging-IsSorted :
    (c : Config) (s : Store) → IsSorted s.items → IsSorted (append_staging c s).items
unfolding append_staging
append_staging-IsSorted c s v = append_loop-IsSorted c s.staging (record s { staging = [] }) v

-- Before the messages that are held.
-- What has been accepted is in order, before the oldest message and before the rest of the page.
abbrev Accepted : ℕ → List Message → List Message → Type 0
Accepted oldest ms accepted = IsSorted accepted × Before accepted ms × Below oldest accepted

accept_one-Accepted :
    (c : Config) (oldest : ℕ) (m : Message) (ms : List Message) (st : List Message × Budget)
    → Above m.key ms
    → Accepted oldest (m ∷ ms) st.0
    → Accepted oldest ms (accept_one c oldest m st).0
unfolding accept_one
accept_one-Accepted c oldest m ms (accepted, b) a (s, v, w) =
    elim (Bool-cases (ltb m.key oldest && ltb (length accepted) c.capacity)) [
      | inl e ↦
          rw (e, accept_one)
            (
              append-IsSorted accepted (m ∷ []) s (tt, tt) (Before-head accepted m ms v),
              Before-append accepted m ms a (Before-tail accepted m ms v),
              Below-append oldest accepted m w (ground arith),
            )
      | inr e ↦ rw (e, accept_one) (s, Before-tail accepted m ms v, w)
    ]

accept_loop-Accepted :
    (c : Config) (oldest : ℕ) (ms : List Message) (st : List Message × Budget)
    → IsSorted ms
    → Accepted oldest ms st.0
    → Accepted oldest [] (accept_loop c oldest ms st).0
unfolding accept_loop
accept_loop-Accepted c oldest [] st t v = v
accept_loop-Accepted c oldest (m ∷ ms) st (a, t) v =
    accept_loop-Accepted c oldest ms (accept_one c oldest m st) t
      (accept_one-Accepted c oldest m ms st a v)

shrink_loop-IsSorted :
    (n room : ℕ) (s : Store) → IsSorted s.items → IsSorted (shrink_loop n room s).items
unfolding shrink_loop
shrink_loop-IsSorted zero room s v = v
shrink_loop-IsSorted (suc n) room s v = elim (Bool-cases (ltb room (suc n))) [
  | inl e ↦
      rw (e, shrink_loop)
        (shrink_loop-IsSorted n room (drop_newest n s) (drop_newest-IsSorted n s v))
  | inr e ↦ rw (e, shrink_loop) v
]

shrink_loop-Above :
    (a n room : ℕ) (s : Store) → Above a s.items → Above a (shrink_loop n room s).items
unfolding shrink_loop drop_newest
shrink_loop-Above a zero room s v = v
shrink_loop-Above a (suc n) room s v = elim (Bool-cases (ltb room (suc n))) [
  | inl e ↦
      rw (e, shrink_loop) (shrink_loop-Above a n room (drop_newest n s) (Above-take a n s.items v))
  | inr e ↦ rw (e, shrink_loop) v
]

Before-between : (n : ℕ) (xs ys : List Message) → Below n xs → Above n ys → Before xs ys
Before-between n [] ys v w = tt
Before-between n (x ∷ xs) ys (p, v) w = (Above-le x.key n ys p w, Before-between n xs ys v w)

Above-oldest : (ms : List Message) → IsSorted ms → Above (oldest_key ms) ms
Above-oldest [] v = tt
Above-oldest (m ∷ ms) (a, v) = (omega arith, a)

prepend_accepted-IsSorted :
    (c : Config) (accepted : List Message) (s : Store)
    → IsSorted accepted
    → IsSorted s.items
    → Below (oldest_key s.items) accepted
    → IsSorted (prepend_accepted c accepted s).items
unfolding prepend_accepted
prepend_accepted-IsSorted c accepted s v w b =
    let room : ℕ = c.capacity - length accepted in
    let n : ℕ = length s.items in
    append-IsSorted accepted (shrink_loop n room s).items v (shrink_loop-IsSorted n room s w) (
      Before-between (oldest_key s.items) accepted _ b
        (shrink_loop-Above (oldest_key s.items) n room s (Above-oldest s.items w)))

pub prepend_staging-IsSorted :
    (c : Config) (s : Store)
    → IsSorted s.staging
    → IsSorted s.items
    → IsSorted (prepend_staging c s).items
unfolding prepend_staging
prepend_staging-IsSorted c s v w =
    let st : List Message × Budget = accept_loop c (oldest_key s.items) s.staging ([], s.budget) in
    let (sorted, _, below) =
      accept_loop-Accepted c (oldest_key s.items) s.staging ([], s.budget) v (tt, tt, tt) in
    elim (Bool-cases (is_empty st.0)) [
      | inl e ↦ rw e w
      | inr e ↦ rw e (
          prepend_accepted-IsSorted c st.0 (record s { staging = []; budget = st.1 }) sorted w
            below)
    ]
