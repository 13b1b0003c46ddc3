-- ===== src/History/Found.antt =====
-- `sort_staging` and `tb_history_find`.
use mathlib.Core.List.{Perm, perm_middle, append-nil}
use mathlib.Core.List.Perm
use tele_bezel.Base.{
  ℕ, suc, ◌+◌, ◌<◌, ◌≡◌, refl, sym, ap, subst, inl, inr, true, false, Option, none, some, List, [],
  ◌∷◌, ◌++◌, ltb, arith, length, take, get_or, Bool-cases,
}
use tele_bezel.Sending.{same_bytes}
use tele_bezel.History.{Message, no_message}
use tele_bezel.History.Merging.{place, sort_onto, reversed, sort}
use tele_bezel.History.Order.{IsSorted, sort-IsSorted}
use tele_bezel.History.Calls.{find_from}

place-Perm : (m : Message) (xs : List Message) → Perm (m ∷ xs) (place m xs)
unfolding place
place-Perm m [] = Perm.rfl
place-Perm m (x ∷ xs) = elim (Bool-cases (ltb m.key x.key)) [
  | inl e ↦ rw e (Perm.trans (Perm.swap x m xs) (Perm.cons x (place-Perm m xs)))
  | inr e ↦ rw e Perm.rfl
]

sort_onto-Perm : (xs ms : List Message) → Perm (ms ++ xs) (sort_onto xs ms)
unfolding sort_onto
sort_onto-Perm xs [] = Perm.rfl
sort_onto-Perm xs (m ∷ ms) =
    Perm.trans (Perm.symm (perm_middle ms xs))
      (Perm.trans (Perm.append_left ms (place-Perm m xs)) (sort_onto-Perm (place m xs) ms))

reversed-Perm : (acc xs : List Message) → Perm (xs ++ acc) (reversed acc xs)
reversed-Perm acc [] = Perm.rfl
reversed-Perm acc (x ∷ xs) =
    Perm.trans (Perm.symm (perm_middle xs acc)) (reversed-Perm (x ∷ acc) xs)

-- `sort_staging` puts the messages of the page in the order of their keys, and loses, adds and repeats
-- none.
pub sort-Perm : (ms : List Message) → IsSorted (sort ms) × Perm ms (sort ms)
unfolding sort
sort-Perm ms =
    let p : Perm (ms ++ []) (sort_onto [] ms) = sort_onto-Perm [] ms in
    let r : Perm (sort_onto [] ms ++ []) (reversed [] (sort_onto [] ms)) =
      reversed-Perm [] (sort_onto [] ms) in
    (
      sort-IsSorted ms,
      Perm.trans (subst (λ l. Perm l (sort_onto [] ms)) (append-nil ms) p)
          (subst (λ l. Perm l (reversed [] (sort_onto [] ms))) (append-nil (sort_onto [] ms)) r),
    )

-- No message of the list has the id.
abbrev pub IsMissing : List Message → List ℕ → Type 0
IsMissing [] id = Unit
IsMissing (m ∷ ms) id = (same_bytes m.id id ≡ false) × IsMissing ms id

-- What an index, or no index, says of the messages.
abbrev pub IsFirst : List Message → List ℕ → Option ℕ → Type 0
IsFirst ms id none = IsMissing ms id
IsFirst ms id (some i) =
    (i < length ms) × (same_bytes (get_or ms i no_message).id id ≡ true) × IsMissing (take i ms) id

abbrev shifted : Option ℕ → Option ℕ
shifted none = none
shifted (some i) = some (suc i)

find_from-suc :
    (ms : List Message) (id : List ℕ) (i : ℕ)
    → find_from ms id (i + 1) ≡ shifted (find_from ms id i)
unfolding find_from
find_from-suc [] id i = refl
find_from-suc (m ∷ ms) id i = elim (Bool-cases (same_bytes m.id id)) [
  | inl e ↦ rw e (ap some (omega arith))
  | inr e ↦ rw e (find_from-suc ms id (i + 1))
]

shifted-IsFirst :
    (m : Message) (ms : List Message) (id : List ℕ) (o : Option ℕ)
    → same_bytes m.id id ≡ false
    → IsFirst ms id o
    → IsFirst (m ∷ ms) id (shifted o)
shifted-IsFirst m ms id none e v = (e, v)
shifted-IsFirst m ms id (some i) e (lt, s, n) = (omega arith, s, (e, n))

-- `tb_history_find` gives the index of the first message with the id, and nothing just when no
-- message has it.
pub find_from-IsFirst : (ms : List Message) (id : List ℕ) → IsFirst ms id (find_from ms id 0)
unfolding find_from
find_from-IsFirst [] id = tt
find_from-IsFirst (m ∷ ms) id = elim (Bool-cases (same_bytes m.id id)) [
  | inl e ↦ rw e (omega arith, e, tt)
  | inr e ↦ rw e (
      subst (IsFirst (m ∷ ms) id) (sym (find_from-suc ms id 0))
        (shifted-IsFirst m ms id (find_from ms id 0) e (find_from-IsFirst ms id)))
]
