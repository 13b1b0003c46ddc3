-- ===== src/Text/Utf8.antt =====
-- `tb_utf8_fit` cuts UTF-8 text at the end of a character.
use tele_bezel.Base.{
  ℕ, zero, suc, ◌-◌, ◌≤◌, ◌<◌, ◌≡◌, refl, sym, ap, ◌∙◌, ◌⊎◌, inl, inr, true, false, some, List, [],
  ◌∷◌, ◌++◌, arith, length, take, ltb, tests, ltb→lt, Bool-cases, length-append, get_or, all, All,
  get_or-append_left, get_or-append_right, take_all, take-append_right, all-get_or,
}
use tele_bezel.Text.{is_continuation, back_up, utf8_fit}

back_up-le : (bytes : List ℕ) (size : ℕ) → back_up bytes size ≤ size
unfolding back_up
back_up-le bytes zero = omega arith
back_up-le bytes (suc size) = ground (arith, back_up-le bytes size)

-- `back_up` stops at the start of a character or at 0.
back_up_stops :
    (bytes : List ℕ) (size : ℕ)
    → (back_up bytes size ≡ 0) ⊎ (is_continuation (get_or bytes (back_up bytes size) 0) ≡ false)
unfolding back_up
back_up_stops bytes zero = inl refl
back_up_stops bytes (suc size) = ground (arith, back_up_stops bytes size)

-- It passes over continuation bytes only.
back_up_passes :
    (bytes : List ℕ) (size i : ℕ)
    → back_up bytes size < i
    → i ≤ size
    → is_continuation (get_or bytes i 0) ≡ true
unfolding back_up
back_up_passes bytes zero i h k = absurd (omega arith)
back_up_passes bytes (suc size) i h k =
    elim (Bool-cases (is_continuation (get_or bytes (suc size) 0))) [
      | inl e ↦ elim (Bool-cases (ltb i (suc size))) [
        | inl below ↦ back_up_passes bytes size i (ground arith) (ground arith)
        | inr top ↦ let e' : i ≡ suc size = ground arith in rw e' e
      ]
      | inr e ↦ absurd (ground arith)
    ]

-- A character: a first byte that is no continuation byte, and continuation bytes.
pub record Char : Type 0 where
  pub lead : ℕ
  pub tail : List ℕ

abbrev pub char_bytes : Char → List ℕ
char_bytes c = c.lead ∷ c.tail

abbrev pub text : List Char → List ℕ
text [] = []
text (c ∷ cs) = char_bytes c ++ text cs

abbrev pub IsChar : Char → Type 0
IsChar c = (is_continuation c.lead ≡ false) × (all is_continuation c.tail ≡ true)

-- A place in a text at which no continuation byte stands is the end of a character.
boundary :
    (cs : List Char) (n : ℕ)
    → All IsChar cs
    → n < length (text cs)
    → is_continuation (get_or (text cs) n 0) ≡ false
    → (k : ℕ) × (take n (text cs) ≡ text (take k cs))
boundary [] n v h e = absurd (omega arith)
boundary (c ∷ cs) zero v h e = (0, refl)
boundary (c ∷ cs) (suc n) ((lead, tail), v) h e = elim (Bool-cases (ltb n (length c.tail))) [
  | inl inside ↦
      let b : is_continuation (get_or c.tail n 0) ≡ true =
        all-get_or is_continuation c.tail n 0 tail (ground arith) in
      absurd (ground (arith, b, get_or-append_left c.tail (text cs) n 0 (ground arith)))
  | inr outside ↦
      let m : ℕ = n - length c.tail in
      let (k, eq) = boundary cs m v (ground (arith, length-append c.tail (text cs))) (
        sym (ap is_continuation (get_or-append_right c.tail (text cs) n m 0 (ground arith))) ∙ e) in
      (
        suc k,
        ap (λ l. c.lead ∷ l)
            (take-append_right c.tail (text cs) n m (ground arith) ∙ ap (◌++◌ c.tail) eq),
      )
]

utf8_fit_whole :
    (bytes : List ℕ) (n capacity : ℕ) → n < capacity → utf8_fit (some bytes) n capacity ≡ n
unfolding utf8_fit
utf8_fit_whole bytes n capacity h = ground arith

utf8_fit_cut :
    (bytes : List ℕ) (n capacity : ℕ)
    → 0 < capacity
    → capacity ≤ n
    → utf8_fit (some bytes) n capacity ≡ back_up bytes (capacity - 1)
unfolding utf8_fit
utf8_fit_cut bytes n capacity p h = ground arith

-- Where `tb_utf8_fit` cuts, it stops at 0 or at the start of a character.
utf8_fit_stops :
    (bytes : List ℕ) (n capacity : ℕ)
    → 0 < capacity
    → capacity ≤ n
    → (utf8_fit (some bytes) n capacity ≡ 0)
      ⊎ (is_continuation (get_or bytes (utf8_fit (some bytes) n capacity) 0) ≡ false)
utf8_fit_stops bytes n capacity p h =
    rw (utf8_fit_cut bytes n capacity p h) (back_up_stops bytes (capacity - 1))

-- What fits lies within the text and leaves room for the terminator.
pub utf8_fit_bounds :
    (bytes : List ℕ) (n capacity : ℕ)
    → 0 < capacity
    → (utf8_fit (some bytes) n capacity ≤ n) × (utf8_fit (some bytes) n capacity < capacity)
unfolding utf8_fit
utf8_fit_bounds bytes n capacity h = ground (arith, back_up-le bytes (capacity - 1))

-- `tb_utf8_fit` over well-formed text and a buffer of at least one byte keeps whole characters: what
-- it keeps is the text of the first `k` characters for some `k`.
pub utf8_fit-text :
    (cs : List Char) (capacity : ℕ)
    → All IsChar cs
    → 0 < capacity
    → (k : ℕ) × (take (utf8_fit (some (text cs)) (length (text cs)) capacity) (text cs)
        ≡ text (take k cs))
utf8_fit-text cs capacity v h = elim (Bool-cases (ltb (length (text cs)) capacity)) [
  | inl short ↦ (
    length cs,
    rw (
      utf8_fit_whole (text cs) (length (text cs)) capacity (ground arith),
      take_all (text cs) (length (text cs)) (omega arith),
      take_all cs (length cs) (omega arith),
    ),
  )
  | inr long ↦ elim (utf8_fit_stops (text cs) (length (text cs)) capacity h (ground arith)) [
    | inl z ↦ (0, rw z refl)
    | inr e ↦
        boundary cs (utf8_fit (some (text cs)) (length (text cs)) capacity) v
          (omega (tests, utf8_fit_bounds (text cs) (length (text cs)) capacity h, long)) e
  ]
]

-- It keeps as much as there is room for: text with its terminator that fits is kept whole, and each
-- byte between the cut and the end of the buffer is a continuation byte, so no later cut is at the
-- start of a character.
pub utf8_fit_longest :
    (bytes : List ℕ) (n capacity i : ℕ)
    → 0 < capacity
    → utf8_fit (some bytes) n capacity < i
    → i < capacity
    → i ≤ n
    → (capacity ≤ n) × (is_continuation (get_or bytes i 0) ≡ true)
utf8_fit_longest bytes n capacity i p h k m = elim (Bool-cases (ltb n capacity)) [
  | inl short ↦ absurd (omega (tests, utf8_fit_whole bytes n capacity (ltb→lt n capacity short)))
  | inr long ↦
      let le : capacity ≤ n = omega (tests, long) in
      (
        le,
        back_up_passes bytes (capacity - 1) i (omega (arith, utf8_fit_cut bytes n capacity p le))
            (omega arith),
      )
]
