-- ===== src/Image/Output.antt =====
-- The pixels of image.c as an output that grows: cells that are written in order hold the bytes that
-- were put out, and a copy reads from them.
use tele_bezel.Base.{
  ℕ, zero, suc, ◌+◌, ◌-◌, ◌≤◌, ◌<◌, ◌≡◌, refl, sym, ap, ◌∙◌, List, [], ◌∷◌, ◌++◌, arith, get_or,
  set, take, length, length-set, length-append, append_assoc, append-nil,
}

-- The cells with bytes written from a place on.
unfoldable pub write_all : List ℕ → ℕ → List ℕ → List ℕ
write_all cells k [] = cells
write_all cells k (v ∷ vs) = write_all (set cells k v) (k + 1) vs

-- The output with `n` bytes more, each the one `distance` places back.
unfoldable pub copied : ℕ → ℕ → List ℕ → List ℕ
copied zero distance out = out
copied (suc n) distance out = copied n distance (out ++ (get_or out (length out - distance) 0 ∷ []))

unfoldable pub copied_cells : ℕ → ℕ → List ℕ → ℕ → List ℕ
copied_cells zero distance cells k = cells
copied_cells (suc n) distance cells k =
    copied_cells n distance (set cells k (get_or cells (k - distance) 0)) (k + 1)

-- The cells hold an output.
abbrev pub Holds : List ℕ → List ℕ → Type 0
Holds cells out = (length out ≤ length cells) × (take (length out) cells ≡ out)

take-set :
    (cells : List ℕ) (k v : ℕ)
    → k < length cells
    → take (suc k) (set cells k v) ≡ take k cells ++ (v ∷ [])
take-set [] k v h = absurd (omega arith)
take-set (x ∷ cells) zero v h = refl
take-set (x ∷ cells) (suc k) v h = ap (λ l. x ∷ l) (take-set cells k v (omega arith))

get_or-take : (xs : List ℕ) (n i : ℕ) → i < n → get_or (take n xs) i 0 ≡ get_or xs i 0
get_or-take xs zero i h = absurd (omega arith)
get_or-take [] (suc n) i h = refl
get_or-take (x ∷ xs) (suc n) zero h = refl
get_or-take (x ∷ xs) (suc n) (suc i) h = get_or-take xs n i (omega arith)

pub Holds-set :
    (cells out : List ℕ) (v : ℕ)
    → Holds cells out
    → length out < length cells
    → Holds (set cells (length out) v) (out ++ (v ∷ []))
Holds-set cells out v (fits, same) h =
    let n : length (out ++ (v ∷ [])) ≡ suc (length out) =
      omega (arith, length-append out (v ∷ [])) in
    (
      omega (arith, n, length-set cells (length out) v),
      rw n (take-set cells (length out) v h ∙ ap (λ l. l ++ (v ∷ [])) same),
    )

pub length-write_all :
    (cells : List ℕ) (k : ℕ) (vs : List ℕ) → length (write_all cells k vs) ≡ length cells
unfolding write_all
length-write_all cells k [] = refl
length-write_all cells k (v ∷ vs) =
    length-write_all (set cells k v) (k + 1) vs ∙ length-set cells k v

pub Holds-write_all :
    (cells out : List ℕ) (k : ℕ) (vs : List ℕ)
    → k ≡ length out
    → Holds cells out
    → k + length vs ≤ length cells
    → Holds (write_all cells k vs) (out ++ vs)
unfolding write_all
Holds-write_all cells out k [] e h fits = rw (append-nil out) h
Holds-write_all cells out k (v ∷ vs) e h fits = rw (← append_assoc out (v ∷ []) vs) (
    Holds-write_all (set cells k v) (out ++ (v ∷ [])) (k + 1) vs
      (omega (arith, length-append out (v ∷ []))) (rw e (Holds-set cells out v h (omega arith)))
      (omega (arith, length-set cells k v)))

pub length-copied_cells :
    (n distance : ℕ) (cells : List ℕ) (k : ℕ)
    → length (copied_cells n distance cells k) ≡ length cells
unfolding copied_cells
length-copied_cells zero distance cells k = refl
length-copied_cells (suc n) distance cells k =
    length-copied_cells n distance (set cells k (get_or cells (k - distance) 0)) (k + 1)
    ∙ length-set cells k (get_or cells (k - distance) 0)

pub length-copied :
    (n distance : ℕ) (out : List ℕ) → length (copied n distance out) ≡ length out + n
unfolding copied
length-copied zero distance out = omega arith
length-copied (suc n) distance out = omega (
  arith,
  length-copied n distance (out ++ (get_or out (length out - distance) 0 ∷ [])),
  length-append out (get_or out (length out - distance) 0 ∷ []),
)

pub Holds-copied :
    (n distance : ℕ) (cells out : List ℕ) (k : ℕ)
    → k ≡ length out
    → 0 < distance
    → distance ≤ length out
    → Holds cells out
    → k + n ≤ length cells
    → Holds (copied_cells n distance cells k) (copied n distance out)
unfolding copied copied_cells
Holds-copied zero distance cells out k e pos le h fits = h
Holds-copied (suc n) distance cells out k e pos le (hl, hs) fits =
    let v : ℕ = get_or out (length out - distance) 0 in
    let same : get_or cells (k - distance) 0 ≡ v = rw e (
      sym (get_or-take cells (length out) (length out - distance) (omega arith))
      ∙ ap (λ l. get_or l (length out - distance) 0) hs) in
    rw same (
      Holds-copied n distance (set cells k v) (out ++ (v ∷ [])) (k + 1)
        (omega (arith, length-append out (v ∷ []))) pos (omega (arith, length-append out (v ∷ [])))
        (rw e (Holds-set cells out v (hl, hs) (omega arith))) (omega (arith, length-set cells k v)))
