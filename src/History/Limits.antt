-- ===== src/History/Limits.antt =====
-- No more messages are held than the capacity, and no more are staged than a page has.
use tele_bezel.Base.{
  ℕ, zero, suc, ◌+◌, ◌%◌, ◌^◌, ◌-◌, ◌≤◌, ◌<◌, ◌≡◌, refl, inl, inr, Bool, ◌||◌, List, [], ◌∷◌, ltb,
  leb, arith, length, Bool-cases, length-take, length-append, Option, none, some,
}
use tele_bezel.Codec.{Span}
use tele_bezel.Codec.Layouts.{MessageRecord}
use tele_bezel.Text.{Budget}
use tele_bezel.History.{Codes, Config, Message, Store}
use tele_bezel.History.Staging.{
  clear_staging, admit, message_of, stage_keyed, stage, staged_id, is_lost,
}
use tele_bezel.History.Merging.{
  append_one, append_loop, append_staging, accept_one, accept_loop, prepend_staging,
  prepend_accepted, shrink_loop, drop_newest, evict_loop, remove_from, merge_page, is_apart,
  over_limits, kept, oldest_key, is_empty, reversed, place, sort_onto, sort, album_step, album_loop,
  merge_albums, same_album,
}

append_one-fits :
    (c : Config) (m : Message) (s : Store)
    → length s.items ≤ c.capacity
    → length (append_one c m s).items ≤ c.capacity
unfolding append_one
append_one-fits c m s h = ground (arith, length-append s.items (m ∷ []))

append_loop-fits :
    (c : Config) (ms : List Message) (s : Store)
    → length s.items ≤ c.capacity
    → length (append_loop c ms s).items ≤ c.capacity
unfolding append_loop
append_loop-fits c [] s h = h
append_loop-fits c (m ∷ ms) s h = append_loop-fits c ms (append_one c m s) (append_one-fits c m s h)

pub append_staging-fits :
    (c : Config) (s : Store)
    → length s.items ≤ c.capacity
    → length (append_staging c s).items ≤ c.capacity
unfolding append_staging
append_staging-fits c s h = append_loop-fits c s.staging (record s { staging = [] }) h

pub merge_page-fits :
    (c : Config) (s : Store)
    → length s.items ≤ c.capacity
    → length (merge_page c s).items ≤ c.capacity
unfolding merge_page clear_staging remove_from
merge_page-fits c s h =
    elim (Bool-cases (is_apart c s || over_limits c s ((kept s + length s.staging) % 2 ^ 16))) [
      | inl e ↦ rw e h
      | inr e ↦ rw e (append_staging-fits c _ (omega (arith, length-take (kept s) s.items)))
    ]

pub evict_loop-fits :
    (n : ℕ) (c : Config) (s : Store)
    → length s.items ≤ c.capacity
    → length (evict_loop n c s).items ≤ c.capacity
unfolding evict_loop drop_newest
evict_loop-fits zero c s h = h
evict_loop-fits (suc n) c s h = elim (Bool-cases (over_limits c s (suc n))) [
  | inl e ↦
      rw (e, evict_loop)
        (evict_loop-fits n c (drop_newest n s) (omega (arith, length-take n s.items)))
  | inr e ↦ rw (e, evict_loop) h
]

-- The loop makes the room that is asked for.
shrink_loop-fits :
    (n room : ℕ) (s : Store) → length s.items ≤ n → length (shrink_loop n room s).items ≤ room
unfolding shrink_loop drop_newest
shrink_loop-fits zero room s h = omega arith
shrink_loop-fits (suc n) room s h = elim (Bool-cases (ltb room (suc n))) [
  | inl e ↦
      rw (e, shrink_loop)
        (shrink_loop-fits n room (drop_newest n s) (omega (arith, length-take n s.items)))
  | inr e ↦ rw (e, shrink_loop) (ground arith)
]

accept_one-fits :
    (c : Config) (oldest : ℕ) (m : Message) (st : List Message × Budget)
    → length st.0 ≤ c.capacity
    → length (accept_one c oldest m st).0 ≤ c.capacity
unfolding accept_one
accept_one-fits c oldest m (accepted, b) h = ground (arith, length-append accepted (m ∷ []))

accept_loop-fits :
    (c : Config) (oldest : ℕ) (ms : List Message) (st : List Message × Budget)
    → length st.0 ≤ c.capacity
    → length (accept_loop c oldest ms st).0 ≤ c.capacity
unfolding accept_loop
accept_loop-fits c oldest [] st h = h
accept_loop-fits c oldest (m ∷ ms) st h =
    accept_loop-fits c oldest ms (accept_one c oldest m st) (accept_one-fits c oldest m st h)

pub prepend_staging-fits :
    (c : Config) (s : Store)
    → length s.items ≤ c.capacity
    → length (prepend_staging c s).items ≤ c.capacity
unfolding prepend_staging prepend_accepted
prepend_staging-fits c s h =
    let st : List Message × Budget = accept_loop c (oldest_key s.items) s.staging ([], s.budget) in
    let s' : Store = record s { staging = []; budget = st.1 } in
    let room : ℕ = c.capacity - length st.0 in
    elim (Bool-cases (is_empty st.0)) [
      | inl e ↦ rw e h
      | inr e ↦ rw e (
          omega (
            arith,
            accept_loop-fits c (oldest_key s.items) s.staging ([], s.budget) (omega arith),
            shrink_loop-fits (length s.items) room s' (omega arith),
            length-append st.0 (shrink_loop (length s.items) room s').items,
          ))
    ]

length-reversed : (acc xs : List Message) → length (reversed acc xs) ≡ length acc + length xs
length-reversed acc [] = omega arith
length-reversed acc (x ∷ xs) = omega (arith, length-reversed (x ∷ acc) xs)

length-place : (m : Message) (xs : List Message) → length (place m xs) ≡ suc (length xs)
unfolding place
length-place m [] = refl
length-place m (x ∷ xs) = ground (arith, length-place m xs)

length-sort_onto : (xs ms : List Message) → length (sort_onto xs ms) ≡ length xs + length ms
unfolding sort_onto
length-sort_onto xs [] = omega arith
length-sort_onto xs (m ∷ ms) = omega (arith, length-sort_onto (place m xs) ms, length-place m xs)

pub length-sort : (ms : List Message) → length (sort ms) ≡ length ms
unfolding sort
length-sort ms = omega (arith, length-reversed [] (sort_onto [] ms), length-sort_onto [] ms)

module _ (k : Codes) where
  album_step-le :
      (m : Message) (st : List Message × Budget) → length (album_step k m st).0 ≤ suc (length st.0)
  unfolding album_step
  album_step-le m ([], b) = omega arith
  album_step-le m (last ∷ xs, b) = elim (Bool-cases (same_album k last m)) [
    | inl e ↦ rw (e, album_step) (omega arith)
    | inr e ↦ rw (e, album_step) (omega arith)
  ]

  album_loop-le :
      (ms : List Message) (st : List Message × Budget)
      → length (album_loop k ms st).0 ≤ length st.0 + length ms
  unfolding album_loop
  album_loop-le [] st = omega arith
  album_loop-le (m ∷ ms) st =
      omega (arith, album_loop-le ms (album_step k m st), album_step-le m st)

  pub merge_albums-le : (s : Store) → length (merge_albums k s).items ≤ length s.items
  unfolding merge_albums
  merge_albums-le s = omega (
    arith,
    album_loop-le s.items ([], s.budget),
    length-reversed [] (album_loop k s.items ([], s.budget)).0,
  )

module _ (k : Codes) (c : Config) (heap : Budget → Span → Bool) where
  admit-staged :
      (r : MessageRecord) (p : Message × Budget) (s : Store)
      → length s.staging < c.page_limit
      → length (admit k c heap r p s).staging ≤ c.page_limit
  unfolding admit
  admit-staged r (m, b) s h =
      elim (Bool-cases
        (is_lost r.text m.text || is_lost r.sender m.sender || is_lost r.forward m.forward)) [
          | inl e ↦ rw (e, admit) (omega arith)
          | inr e ↦ rw (e, admit) (omega (arith, length-append s.staging (m ∷ [])))
        ]

  stage_keyed-staged :
      (r : MessageRecord) (o : Option (List ℕ × ℕ)) (s : Store)
      → length s.staging < c.page_limit
      → length (stage_keyed k c heap r o s).1.staging ≤ c.page_limit
  unfolding stage_keyed
  stage_keyed-staged r none s h = omega arith
  stage_keyed-staged r (some (id, key)) s h =
      admit-staged r (message_of k c heap r id key s.budget) s h

  -- `stage` never writes past the array of a page.
  pub stage-staged :
      (r : MessageRecord) (s : Store)
      → length s.staging ≤ c.page_limit
      → length (stage k c heap r s).1.staging ≤ c.page_limit
  unfolding stage
  stage-staged r s h = elim (Bool-cases (leb c.page_limit (length s.staging))) [
    | inl e ↦ rw e h
    | inr e ↦ rw e (stage_keyed-staged r (staged_id r.id) s (ground arith))
  ]

  items-admit :
      (r : MessageRecord) (m : Message) (b : Budget) (s : Store)
      → (admit k c heap r (m, b) s).items ≡ s.items
  unfolding admit
  items-admit r m b s =
      elim (Bool-cases
        (is_lost r.text m.text || is_lost r.sender m.sender || is_lost r.forward m.forward)) [
          | inl e ↦ rw (e, admit) refl
          | inr e ↦ rw (e, admit) refl
        ]

  items-stage_keyed :
      (r : MessageRecord) (o : Option (List ℕ × ℕ)) (s : Store)
      → (stage_keyed k c heap r o s).1.items ≡ s.items
  unfolding stage_keyed
  items-stage_keyed r none s = refl
  items-stage_keyed r (some (id, key)) s =
      let (m, b) = message_of k c heap r id key s.budget in items-admit r m b s

  -- `stage` leaves the held messages alone.
  pub items-stage : (r : MessageRecord) (s : Store) → (stage k c heap r s).1.items ≡ s.items
  unfolding stage
  items-stage r s = elim (Bool-cases (leb c.page_limit (length s.staging))) [
    | inl e ↦ rw e refl
    | inr e ↦ rw e (items-stage_keyed r (staged_id r.id) s)
  ]
