-- ===== src/Text/Ids.antt =====
-- `tb_parse_id` against the decimal value of an identifier.
use tele_bezel.Base.{
  ℕ, ◌+◌, ◌-◌, ◌*◌, ◌^◌, ◌≤◌, ◌<◌, ◌≡◌, refl, Bool, true, false, ◌&&◌, Option, none, some, List, [],
  ◌∷◌, arith, leb, ◌==◌, if◌then◌else◌, Option-cases, all, get_or, length, take_all, ◌≢◌, ◌⊎◌, inl,
  inr, sym, ◌∙◌,
}
use tele_bezel.Base.Int.{ℤ, pos, negate}
use tele_bezel.Text.{is_digit, parse_digits, parse_id, is_empty, copy_id, copy_id_from}

-- The decimal value of digits, with `n` before them.
pub decimal : ℕ → List ℕ → ℕ
decimal n [] = n
decimal n (c ∷ cs) = decimal (n * 10 + (c - b'0')) cs

decimal-ge : (n : ℕ) (cs : List ℕ) → n ≤ decimal n cs
unfolding decimal
decimal-ge n [] = omega arith
decimal-ge n (c ∷ cs) = omega (arith, decimal-ge (n * 10 + (c - b'0')) cs)

-- The largest magnitude of an `int64_t` of a sign.
abbrev pub limit : Bool → ℕ
limit true = 2 ^ 63
limit false = 2 ^ 63 - 1

abbrev pub signed : Bool → ℕ → ℤ
signed true n = negate n
signed false n = pos n

-- What `tb_parse_id` promises: the value, where there are digits only and it is in range.
abbrev pub read_digits : Bool → ℕ → List ℕ → Option ℤ
read_digits negative n cs =
    if all is_digit cs && leb (decimal n cs) (limit negative)
    then some (signed negative (decimal n cs))
    else none

is_digit_bounds : (c : ℕ) → is_digit c ≡ true → (b'0' ≤ c) × (c ≤ b'9')
unfolding is_digit
is_digit_bounds c h = ground arith

parse_digits_lem :
    (negative : Bool) (cs : List ℕ) (n : ℕ)
    → n ≤ 2 ^ 63 - 1
    → parse_digits negative cs n ≡ read_digits negative n cs
unfolding parse_digits decimal
parse_digits_lem true [] n h = ground arith
parse_digits_lem false [] n h = ground arith
parse_digits_lem true (c ∷ []) n h = ground (arith, is_digit_bounds c)
parse_digits_lem true (c ∷ d ∷ cs) n h = ground (
  arith,
  is_digit_bounds c,
  decimal-ge ((n * 10 + (c - b'0')) * 10 + (d - b'0')) cs,
  parse_digits_lem true (d ∷ cs) (n * 10 + (c - b'0')),
)
parse_digits_lem false (c ∷ cs) n h = ground (
  arith,
  is_digit_bounds c,
  decimal-ge (n * 10 + (c - b'0')) cs,
  parse_digits_lem false cs (n * 10 + (c - b'0')),
)

-- What `tb_parse_id` promises for a whole string: an optional minus sign, then at least one digit.
abbrev pub read_id : List ℕ → Option ℤ
read_id [] = none
read_id (c ∷ cs) =
    if c == b'-'
    then if is_empty cs then none else read_digits true 0 cs
    else read_digits false 0 (c ∷ cs)

-- `tb_parse_id` accepts exactly the decimal numbers of an `int64_t`, with an optional minus sign and
-- any leading zeros, and gives their value: no overflow is accepted and none is hit on the way.
pub parse_id_lem : (value : List ℕ) → parse_id value ≡ read_id value
unfolding parse_id
parse_id_lem [] = refl
parse_id_lem (c ∷ cs) =
    rw (parse_digits_lem true cs 0 (omega arith), parse_digits_lem false (c ∷ cs) 0 (omega arith))
      refl

-- A canonical identifier: no leading zero, and a sign only where one is allowed.
abbrev pub IsCanonical : Bool → List ℕ → Type 0
IsCanonical allow_negative [] = ⊥
IsCanonical allow_negative (c ∷ cs) =
    ((c ≡ b'-')
      × (allow_negative ≡ true)
      × (get_or cs 0 0 ≢ b'0')
      × (cs ≢ [])
      × (all is_digit cs ≡ true))
    ⊎ ((c ≢ b'-') × (c ≢ b'0') × (all is_digit (c ∷ cs) ≡ true))

copy_id_from-true :
    (value digits out : List ℕ)
    → copy_id_from value digits ≡ (true, some out)
    → (out ≡ value)
      × (get_or digits 0 0 ≢ b'0')
      × (all is_digit digits ≡ true)
      × ((key : ℤ) × (parse_id value ≡ some key))
unfolding copy_id_from
copy_id_from-true value digits out h = elim (Option-cases (parse_id value)) [
  | inl e ↦ absurd (ground arith)
  | inr (key, e) ↦ (ground arith, ground arith, ground arith, (key, e))
]

canonical :
    (allow_negative : Bool) (c : ℕ) (cs out : List ℕ) (capacity : ℕ)
    → copy_id capacity (record { bytes = c ∷ cs; length = length (c ∷ cs) }) allow_negative
      ≡ (true, some out)
    → ((c ≡ b'-')
        × (allow_negative ≡ true)
        × (cs ≢ [])
        × (copy_id_from (c ∷ cs) cs ≡ (true, some out)))
      ⊎ ((c ≢ b'-') × (copy_id_from (c ∷ cs) (c ∷ cs) ≡ (true, some out)))
unfolding copy_id
canonical allow_negative c cs out capacity h = ground (arith, take_all cs (length cs))

-- What `tb_copy_id` accepts is a canonical decimal number of an `int64_t`, it fits the buffer with its
-- terminator, and the buffer holds it whole.
pub copy_id_accepts :
    (capacity : ℕ) (value : List ℕ) (allow_negative : Bool) (out : List ℕ)
    → copy_id capacity (record { bytes = value; length = length value }) allow_negative
      ≡ (true, some out)
    → (out ≡ value)
      × (length value < capacity)
      × IsCanonical allow_negative value
      × ((key : ℤ) × (read_id value ≡ some key))
unfolding copy_id
copy_id_accepts capacity [] allow_negative out h = absurd (ground arith)
copy_id_accepts capacity (c ∷ cs) allow_negative out h =
    elim (canonical allow_negative c cs out capacity h) [
      | inl (e, allowed, more, from) ↦
          let (same, lead, digits, read) = copy_id_from-true (c ∷ cs) cs out from in
          (
            same,
            ground arith,
            inl (e, allowed, lead, more, digits),
            (read.0, sym (parse_id_lem (c ∷ cs)) ∙ read.1),
          )
      | inr (e, from) ↦
          let (same, lead, digits, read) = copy_id_from-true (c ∷ cs) (c ∷ cs) out from in
          (
            same,
            ground arith,
            inr (e, lead, digits),
            (read.0, sym (parse_id_lem (c ∷ cs)) ∙ read.1),
          )
    ]
