-- ===== src/History/Order.antt =====
-- The messages that are held stay in the order of their keys.
use tele_bezel.Base.{
  ℕ, zero, suc, ◌-◌, ◌≤◌, ◌<◌, ◌≡◌, sym, ap, subst, inl, inr, false, not, ◌&&◌, List, [], ◌∷◌, ◌++◌,
  ltb, leb, arith, length, take, get_or, Bool-cases, tests,
}
use tele_bezel.History.{Message, no_message}
use tele_bezel.History.Merging.{place, sort_onto, reversed, sort, newest_key, is_empty}

-- No key of the list is below `n`, above `n`.
abbrev pub Above : ℕ → List Message → Type 0
Above n [] = Unit
Above n (m ∷ ms) = (n ≤ m.key) × Above n ms

abbrev pub Below : ℕ → List Message → Type 0
Below n [] = Unit
Below n (m ∷ ms) = (m.key ≤ n) × Below n ms

-- In the order of the keys, and in the opposite order.
abbrev pub IsSorted : List Message → Type 0
IsSorted [] = Unit
IsSorted (m ∷ ms) = Above m.key ms × IsSorted ms

abbrev pub IsFalling : List Message → Type 0
IsFalling [] = Unit
IsFalling (m ∷ ms) = Below m.key ms × IsFalling ms

-- No key of the first list is above one of the second.
abbrev pub Before : List Message → List Message → Type 0
Before [] ys = Unit
Before (m ∷ ms) ys = Above m.key ys × Before ms ys

pub Above-le : (a b : ℕ) (ms : List Message) → a ≤ b → Above b ms → Above a ms
Above-le a b [] h v = tt
Above-le a b (m ∷ ms) h (p, v) = (omega arith, Above-le a b ms h v)

pub Below-le : (a b : ℕ) (ms : List Message) → a ≤ b → Below a ms → Below b ms
Below-le a b [] h v = tt
Below-le a b (m ∷ ms) h (p, v) = (omega arith, Below-le a b ms h v)

Before-cons :
    (x : Message) (xs ys : List Message) → Below x.key xs → Before xs ys → Before xs (x ∷ ys)
Before-cons x [] ys b v = tt
Before-cons x (m ∷ ms) ys (p, b) (q, v) = ((p, q), Before-cons x ms ys b v)

-- `sort_staging` sorts.
Below-place :
    (n : ℕ) (m : Message) (xs : List Message) → m.key ≤ n → Below n xs → Below n (place m xs)
unfolding place
Below-place n m [] h v = (h, tt)
Below-place n m (x ∷ xs) h (p, v) = elim (Bool-cases (ltb m.key x.key)) [
  | inl e ↦ rw e (p, Below-place n m xs h v)
  | inr e ↦ rw e (h, (p, v))
]

place-IsFalling : (m : Message) (xs : List Message) → IsFalling xs → IsFalling (place m xs)
unfolding place
place-IsFalling m [] v = (tt, tt)
place-IsFalling m (x ∷ xs) (b, v) = elim (Bool-cases (ltb m.key x.key)) [
  | inl e ↦ rw e (Below-place x.key m xs (omega (tests, e)) b, place-IsFalling m xs v)
  | inr e ↦
      let le : x.key ≤ m.key = omega (tests, e) in rw e ((le, Below-le x.key m.key xs le b), (b, v))
]

sort_onto-IsFalling : (xs ms : List Message) → IsFalling xs → IsFalling (sort_onto xs ms)
unfolding sort_onto
sort_onto-IsFalling xs [] v = v
sort_onto-IsFalling xs (m ∷ ms) v = sort_onto-IsFalling (place m xs) ms (place-IsFalling m xs v)

pub reversed-IsSorted :
    (acc xs : List Message)
    → IsSorted acc
    → IsFalling xs
    → Before xs acc
    → IsSorted (reversed acc xs)
reversed-IsSorted acc [] s f b = s
reversed-IsSorted acc (m ∷ ms) s (p, f) (q, b) =
    reversed-IsSorted (m ∷ acc) ms (q, s) f (Before-cons m ms acc p b)

pub Before-nil : (xs : List Message) → Before xs []
Before-nil [] = tt
Before-nil (m ∷ ms) = (tt, Before-nil ms)

pub sort-IsSorted : (ms : List Message) → IsSorted (sort ms)
unfolding sort
sort-IsSorted ms =
    let f = sort_onto-IsFalling [] ms tt in
    reversed-IsSorted [] (sort_onto [] ms) tt f (Before-nil _)

-- Appending and cutting.
Above-append : (n : ℕ) (xs ys : List Message) → Above n xs → Above n ys → Above n (xs ++ ys)
Above-append n [] ys v w = w
Above-append n (x ∷ xs) ys (p, v) w = (p, Above-append n xs ys v w)

pub append-IsSorted :
    (xs ys : List Message) → IsSorted xs → IsSorted ys → Before xs ys → IsSorted (xs ++ ys)
append-IsSorted [] ys s t b = t
append-IsSorted (x ∷ xs) ys (a, s) t (p, b) =
    (Above-append x.key xs ys a p, append-IsSorted xs ys s t b)

pub Above-take : (n i : ℕ) (xs : List Message) → Above n xs → Above n (take i xs)
Above-take n zero xs v = tt
Above-take n (suc i) [] v = tt
Above-take n (suc i) (x ∷ xs) (p, v) = (p, Above-take n i xs v)

pub take-IsSorted : (i : ℕ) (xs : List Message) → IsSorted xs → IsSorted (take i xs)
take-IsSorted zero xs s = tt
take-IsSorted (suc i) [] s = tt
take-IsSorted (suc i) (x ∷ xs) (a, s) = (Above-take x.key i xs a, take-IsSorted i xs s)

Above-get :
    (n i : ℕ) (xs : List Message) → Above n xs → i < length xs → n ≤ (get_or xs i no_message).key
Above-get n i [] v h = absurd (omega arith)
Above-get n zero (x ∷ xs) (p, v) h = p
Above-get n (suc i) (x ∷ xs) (p, v) h = Above-get n i xs v (omega arith)

newest_key-cons :
    (x y : Message) (xs : List Message) → newest_key (x ∷ y ∷ xs) ≡ newest_key (y ∷ xs)
newest_key-cons x y xs =
    let i : suc (suc (length xs)) - 1 ≡ suc (suc (length xs) - 1) = omega arith in
    ap (λ n. (get_or (x ∷ y ∷ xs) n no_message).key) i

-- Nothing is above the last key.
Below-newest : (xs : List Message) → IsSorted xs → Below (newest_key xs) xs
Below-newest [] s = tt
Below-newest (x ∷ []) s = (omega arith, tt)
Below-newest (x ∷ y ∷ xs) ((p, a), s) =
    let ih : Below (newest_key (y ∷ xs)) (y ∷ xs) = Below-newest (y ∷ xs) s in
    subst (λ n. Below n (x ∷ y ∷ xs)) (sym (newest_key-cons x y xs)) (omega (arith, ih.0), ih)

pub Before-single : (m : Message) (xs : List Message) → Below m.key xs → Before xs (m ∷ [])
Before-single m [] v = tt
Before-single m (x ∷ xs) (p, v) = ((p, tt), Before-single m xs v)

pub Before-head :
    (xs : List Message) (m : Message) (ms : List Message) → Before xs (m ∷ ms) → Before xs (m ∷ [])
Before-head [] m ms v = tt
Before-head (x ∷ xs) m ms ((p, q), v) = ((p, tt), Before-head xs m ms v)

pub Before-tail :
    (xs : List Message) (m : Message) (ms : List Message) → Before xs (m ∷ ms) → Before xs ms
Before-tail [] m ms v = tt
Before-tail (x ∷ xs) m ms ((p, q), v) = (q, Before-tail xs m ms v)

pub Before-append :
    (xs : List Message) (m : Message) (ys : List Message)
    → Above m.key ys
    → Before xs ys
    → Before (xs ++ (m ∷ [])) ys
Before-append [] m ys a v = (a, tt)
Before-append (x ∷ xs) m ys a (p, v) = (p, Before-append xs m ys a v)

pub Below-append :
    (n : ℕ) (xs : List Message) (m : Message) → Below n xs → m.key ≤ n → Below n (xs ++ (m ∷ []))
Below-append n [] m v h = (h, tt)
Below-append n (x ∷ xs) m (p, v) h = (p, Below-append n xs m v h)

pub newest_key-Below :
    (xs : List Message) (m : Message)
    → IsSorted xs
    → (not (is_empty xs) && leb m.key (newest_key xs)) ≡ false
    → Below m.key xs
newest_key-Below [] m v h = tt
newest_key-Below (x ∷ xs) m v h =
    Below-le (newest_key (x ∷ xs)) m.key (x ∷ xs) (ground arith) (Below-newest (x ∷ xs) v)
