-- ===== src/History/Split.antt =====
-- After `merge_albums` no two neighbours are of one album.
use tele_bezel.Base.{
  ◌≡◌, refl, ap, ◌∙◌, inl, inr, true, false, not, ◌&&◌, List, [], ◌∷◌, ◌==◌, arith, Bool-cases,
}
use tele_bezel.Text.{Budget}
use tele_bezel.History.{Codes, Message, Store}
use tele_bezel.History.Merging.{
  reversed, joined, join, same_album, has_text, album_step, album_loop, merge_albums,
}

module _ (k : Codes) where
  -- The message starts no pair of one album with the first of the list.
  abbrev pub IsApart : Message → List Message → Type 0
  IsApart last [] = Unit
  IsApart last (m ∷ ms) = same_album k last m ≡ false

  abbrev pub IsSplit : List Message → Type 0
  IsSplit [] = Unit
  IsSplit (m ∷ ms) = IsApart m ms × IsSplit ms

  -- The same of a list from the last message down.
  abbrev IsAfter : Message → List Message → Type 0
  IsAfter m [] = Unit
  IsAfter m (last ∷ xs) = same_album k last m ≡ false

  abbrev IsBack : List Message → Type 0
  IsBack [] = Unit
  IsBack (m ∷ ms) = IsAfter m ms × IsBack ms

  abbrev Meet : List Message → List Message → Type 0
  Meet [] acc = Unit
  Meet (x ∷ xs) acc = IsApart x acc

  reversed-IsSplit :
      (acc xs : List Message) → IsSplit acc → IsBack xs → Meet xs acc → IsSplit (reversed acc xs)
  reversed-IsSplit acc [] s b m = s
  reversed-IsSplit acc (x ∷ []) s b m = (m, s)
  reversed-IsSplit acc (x ∷ y ∷ xs) s (a, b) m = reversed-IsSplit (x ∷ acc) (y ∷ xs) (m, s) b a

  -- What stays of two messages of an album is of it.
  album-join :
      (last m : Message) → same_album k last m ≡ true → (join k last m).0.album ≡ last.album
  unfolding join joined
  album-join last m e =
      elim (Bool-cases (not (has_text (joined k last m).text) && has_text m.text)) [
        | inl t ↦ rw (t, join) (ground arith)
        | inr t ↦ rw (t, join) refl
      ]

  join-IsAfter :
      (last m : Message) (xs : List Message)
      → same_album k last m ≡ true
      → IsAfter last xs
      → IsAfter (join k last m).0 xs
  join-IsAfter last m [] e a = tt
  join-IsAfter last m (x ∷ xs) e a =
      ap (λ n. not (n == 0) && x.album == n) (album-join last m e) ∙ a

  album_step-IsBack :
      (m : Message) (st : List Message × Budget) → IsBack st.0 → IsBack (album_step k m st).0
  unfolding album_step
  album_step-IsBack m ([], b) v = (tt, tt)
  album_step-IsBack m (last ∷ xs, b) v = elim (Bool-cases (same_album k last m)) [
    | inl e ↦ let (a, w) = v in rw (e, album_step) (join-IsAfter last m xs e a, w)
    | inr e ↦ rw (e, album_step) (e, v)
  ]

  album_loop-IsBack :
      (ms : List Message) (st : List Message × Budget) → IsBack st.0 → IsBack (album_loop k ms st).0
  unfolding album_loop
  album_loop-IsBack [] st v = v
  album_loop-IsBack (m ∷ ms) st v =
      album_loop-IsBack ms (album_step k m st) (album_step-IsBack m st v)

  Meet-nil : (xs : List Message) → Meet xs []
  Meet-nil [] = tt
  Meet-nil (x ∷ xs) = tt

  -- After `merge_albums` no two neighbours are of one album.
  pub merge_albums-IsSplit : (s : Store) → IsSplit (merge_albums k s).items
  unfolding merge_albums
  merge_albums-IsSplit s =
      let st : List Message × Budget = album_loop k s.items ([], s.budget) in
      reversed-IsSplit [] st.0 tt (album_loop-IsBack s.items ([], s.budget) tt) (Meet-nil st.0)
