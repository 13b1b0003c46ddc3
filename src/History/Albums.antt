-- ===== src/History/Albums.antt =====
-- `merge_albums` keeps the order of the keys.
use tele_bezel.Base.{◌≡◌, refl, ◌⊎◌, inl, inr, not, ◌&&◌, List, [], ◌∷◌, Bool-cases}
use tele_bezel.Text.{Budget}
use tele_bezel.History.{Codes, Message, Store}
use tele_bezel.History.Merging.{
  joined, join, same_album, has_text, album_step, album_loop, merge_albums,
}
use tele_bezel.History.Order.{
  Above, Below, IsSorted, IsFalling, Before, reversed-IsSorted, Before-nil, Before-tail, Below-le,
}

Before-Below :
    (xs : List Message) (m : Message) (ms : List Message) → Before xs (m ∷ ms) → Below m.key xs
Before-Below [] m ms v = tt
Before-Below (x ∷ xs) m ms ((p, q), v) = (p, Before-Below xs m ms v)

module _ (k : Codes) where
  -- What stays of two messages has the key of one of them.
  key-join :
      (last m : Message) → ((join k last m).0.key ≡ last.key) ⊎ ((join k last m).0.key ≡ m.key)
  unfolding join joined
  key-join last m = elim (Bool-cases (not (has_text (joined k last m).text) && has_text m.text)) [
    | inl e ↦ inr (rw (e, join) refl)
    | inr e ↦ inl (rw (e, join) refl)
  ]

  -- The messages that are kept, from the last one down, and those that are left.
  abbrev Stacked : List Message → List Message → Type 0
  Stacked ms xs = IsFalling xs × Before xs ms

  join-Stacked :
      (last m : Message) (xs ms : List Message)
      → Above m.key ms
      → Stacked (m ∷ ms) (last ∷ xs)
      → Stacked ms ((join k last m).0 ∷ xs)
  join-Stacked last m xs ms a ((b, f), ((p, q), v)) = elim (key-join last m) [
    | inl e ↦ rw e ((b, f), (q, Before-tail xs m ms v))
    | inr e ↦ rw e ((Below-le last.key m.key xs p b, f), (a, Before-tail xs m ms v))
  ]

  album_step-Stacked :
      (m : Message) (ms : List Message) (st : List Message × Budget)
      → Above m.key ms
      → Stacked (m ∷ ms) st.0
      → Stacked ms (album_step k m st).0
  unfolding album_step
  album_step-Stacked m ms ([], b) a v = ((tt, tt), (a, tt))
  album_step-Stacked m ms (last ∷ xs, b) a v = elim (Bool-cases (same_album k last m)) [
    | inl e ↦ rw (e, album_step) (join-Stacked last m xs ms a v)
    | inr e ↦
        let (f, w) = v in
        rw (e, album_step)
          ((Before-Below (last ∷ xs) m ms w, f), (a, Before-tail (last ∷ xs) m ms w))
  ]

  album_loop-Stacked :
      (ms : List Message) (st : List Message × Budget)
      → IsSorted ms
      → Stacked ms st.0
      → Stacked [] (album_loop k ms st).0
  unfolding album_loop
  album_loop-Stacked [] st s v = v
  album_loop-Stacked (m ∷ ms) st (a, s) v =
      album_loop-Stacked ms (album_step k m st) s (album_step-Stacked m ms st a v)

  pub merge_albums-IsSorted : (s : Store) → IsSorted s.items → IsSorted (merge_albums k s).items
  unfolding merge_albums
  merge_albums-IsSorted s v =
      let (f, _) = album_loop-Stacked s.items ([], s.budget) v (tt, tt) in
      reversed-IsSorted [] (album_loop k s.items ([], s.budget)).0 tt f (Before-nil _)
