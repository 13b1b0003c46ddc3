-- ===== src/Image/Rows/Root.antt =====
-- `tb_image_isqrt` gives the integer square root of every `uint32_t`.
use tele_bezel.Base.{
  ℕ, zero, suc, ◌+◌, ◌-◌, ◌*◌, ◌/◌, ◌%◌, ◌^◌, ◌≤◌, ◌<◌, ◌≡◌, refl, arith, ltb, leb, Bool-cases, ◌⊎◌,
  inl, inr, ap, ◌∙◌,
}
use tele_bezel.Image.Rows.{skip_bits, root_bits, isqrt}

-- `n` is the square root of `v`, rounded down.
abbrev pub IsRoot : ℕ → ℕ → Type 0
IsRoot v n = (n * n ≤ v) × (v < (n + 1) * (n + 1))

-- The powers of two by doubling; the loop's `bit` is the square of one.
abbrev power : ℕ → ℕ
power zero = 1
power (suc k) = 2 * power k

module _ (fuel value root bit : ℕ) where
  root_bits-stop : bit ≡ 0 → root_bits (suc fuel) value root bit ≡ root
  unfolding root_bits
  root_bits-stop e = ground arith

  root_bits-take :
      0 < bit
      → root + bit ≤ value
      → root_bits (suc fuel) value root bit
        ≡ root_bits fuel (value - (root + bit)) (root / 2 + bit) (bit / 4)
  unfolding root_bits
  root_bits-take p h = ground arith

  root_bits-skip :
      0 < bit
      → value < root + bit
      → root_bits (suc fuel) value root bit ≡ root_bits fuel value (root / 2) (bit / 4)
  unfolding root_bits
  root_bits-skip p h = ground arith

power_pos : (k : ℕ) → 0 < power k
power_pos zero = omega arith
power_pos (suc k) = omega (arith, power_pos k)

-- The last round leaves the root.
last_round :
    (fuel v q value : ℕ)
    → value + q * q ≡ v
    → v < (q + 2) * (q + 2)
    → IsRoot v (root_bits (suc (suc fuel)) value (2 * q) 1)
last_round fuel v q value ev top = elim (Bool-cases (leb (2 * q + 1) value)) [
  | inl e ↦
      rw
        (
          root_bits-take (suc fuel) value (2 * q) 1 (omega arith) (ground arith),
          root_bits-stop fuel (value - (2 * q + 1)) (2 * q / 2 + 1) (1 / 4) (omega arith),
        )
        (let r : 2 * q / 2 + 1 ≡ q + 1 = omega arith in rw r (ground arith))
  | inr e ↦
      rw
        (
          root_bits-skip (suc fuel) value (2 * q) 1 (omega arith) (ground arith),
          root_bits-stop fuel value (2 * q / 2) (1 / 4) (omega arith),
        )
        (let r : 2 * q / 2 ≡ q = omega arith in rw r (ground arith))
]

-- The state of the loop at `bit` = 4 ^ k, with `q` the part of the root that is found: `value` is what
-- `q * q` leaves of `v`, and `root` is 2 * q * 2 ^ k.
IsRoot-round :
    (k fuel v q value root bit : ℕ)
    → k + 1 < fuel
    → bit ≡ power k * power k
    → value + q * q ≡ v
    → root ≡ 2 * q * power k
    → v < (q + 2 * power k) * (q + 2 * power k)
    → IsRoot v (root_bits fuel value root bit)
IsRoot-round k zero v q value root bit lt eb ev er top = absurd (omega arith)
IsRoot-round k (suc zero) v q value root bit lt eb ev er top = absurd (omega arith)
IsRoot-round zero (suc (suc fuel)) v q value root bit lt eb ev er top =
    let r : root ≡ 2 * q = omega arith in
    let b : bit ≡ 1 = omega arith in rw (r, b) (last_round fuel v q value ev (omega arith))
IsRoot-round (suc k) (suc (suc fuel)) v q value root bit lt eb ev er top =
    elim (Bool-cases (leb (root + bit) value)) [
      | inl e ↦ rw (root_bits-take (suc fuel) value root bit (bit_pos) (ground arith)) (
          IsRoot-round k (suc fuel) v (q + 2 * g) (value - (root + bit)) (root / 2 + bit) (bit / 4)
            (omega arith) (omega arith) (ground arith) (omega arith) (omega arith))
      | inr e ↦ rw (root_bits-skip (suc fuel) value root bit (bit_pos) (ground arith)) (
          IsRoot-round k (suc fuel) v q value (root / 2) (bit / 4) (omega arith) (omega arith) ev
            (omega arith) (ground arith))
    ]
  where
    g : ℕ
    g = power k

    bit_pos : 0 < bit
    bit_pos = grind (arith, power_pos k)

skip_bits-next :
    (fuel value bit : ℕ)
    → value < bit
    → skip_bits (suc fuel) value bit ≡ skip_bits fuel value (bit / 4)
unfolding skip_bits
skip_bits-next fuel value bit h = ground arith

skip_bits-stop : (fuel value bit : ℕ) → bit ≤ value → skip_bits fuel value bit ≡ bit
unfolding skip_bits
skip_bits-stop zero value bit h = refl
skip_bits-stop (suc fuel) value bit h = ground arith

-- The square of the power of two at which the second loop starts.
abbrev Starts : ℕ → ℕ → ℕ → Type 0
Starts k v bit =
    ((v ≡ 0) × (bit ≡ 0))
    ⊎ ((j : ℕ) × (j ≤ k) × (bit ≡ power j * power j) × (v < (2 * power j) * (2 * power j)))

Starts-suc : (k v bit : ℕ) → Starts k v bit → Starts (suc k) v bit
Starts-suc k v bit (inl h) = inl h
Starts-suc k v bit (inr (j, le, e, h)) = inr (j, omega arith, e, h)

skip_start :
    (k fuel v bit : ℕ)
    → k < fuel
    → bit ≡ power k * power k
    → v < (2 * power k) * (2 * power k)
    → Starts k v (skip_bits fuel v bit)
skip_start k zero v bit lt eb top = absurd (omega arith)
skip_start zero (suc fuel) v bit lt eb top = elim (Bool-cases (ltb v bit)) [
  | inl e ↦ inl (
    ground arith,
    skip_bits-next fuel v bit (ground arith)
        ∙ skip_bits-stop fuel v (bit / 4) (ground arith)
        ∙ ground arith,
  )
  | inr e ↦ inr (0, omega arith, skip_bits-stop (suc fuel) v bit (ground arith) ∙ eb, top)
]
skip_start (suc k) (suc fuel) v bit lt eb top = elim (Bool-cases (ltb v bit)) [
  | inl e ↦ rw (skip_bits-next fuel v bit (ground arith)) (
      Starts-suc k v (skip_bits fuel v (bit / 4))
        (skip_start k fuel v (bit / 4) (omega arith) (omega arith) (ground arith)))
  | inr e ↦ inr (suc k, omega arith, skip_bits-stop (suc fuel) v bit (ground arith) ∙ eb, top)
]

square_ge : (m : ℕ) → 2 ^ 32 ≤ (m + 2 ^ 16) * (m + 2 ^ 16)
square_ge m = omega arith

root_lt : (v n : ℕ) → v < 2 ^ 32 → IsRoot v n → n < 2 ^ 16
root_lt v n h (lo, hi) = elim (Bool-cases (ltb n (2 ^ 16))) [
  | inl e ↦ ground arith
  | inr e ↦
      let m : n ≡ n - 2 ^ 16 + 2 ^ 16 = ground arith in
      absurd (omega (arith, square_ge (n - 2 ^ 16), ap (λ (t : ℕ). t * t) m))
]

IsRoot-of_start : (v bit : ℕ) → Starts 15 v bit → IsRoot v (root_bits 17 v 0 bit)
IsRoot-of_start v bit (inl (z, e)) = rw (root_bits-stop 16 v 0 bit e) (omega arith)
IsRoot-of_start v bit (inr (j, le, e, h)) =
    IsRoot-round j 17 v 0 v 0 bit (omega arith) e (omega arith) (omega arith) (omega arith)

-- `tb_image_isqrt` of a `uint32_t` is its integer square root, which a `uint16_t` holds; the fuel of
-- the two loops is enough.
pub isqrt-IsRoot : (v : ℕ) → v < 2 ^ 32 → IsRoot v (isqrt v) × (isqrt v < 2 ^ 16)
unfolding isqrt
isqrt-IsRoot v h =
    let root : IsRoot v (root_bits 17 v 0 (skip_bits 17 v (2 ^ 30))) =
      IsRoot-of_start v _ (skip_start 15 17 v (2 ^ 30) (omega arith) refl (omega arith)) in
    let small = root_lt v _ h root in
    let same : root_bits 17 v 0 (skip_bits 17 v (2 ^ 30)) % 2 ^ 16
        ≡ root_bits 17 v 0 (skip_bits 17 v (2 ^ 30)) =
      omega arith in
    rw same (root, small)
