-- ===== src/Text.antt =====
-- app/src/c/text.c: fitting UTF-8 text into a buffer, identifiers, and the budget of copied strings.
-- A C string is the list of its bytes up to the terminator, which is not listed; `out` parameters
-- are results.
pub mod Utf8
pub mod Ids
pub mod Budgets
pub mod Copies
use tele_bezel.Base.{
  ℕ, zero, suc, ◌+◌, ◌-◌, ◌*◌, Bool, true, false, not, ◌&&◌, ◌||◌, Option, none, some, List, [],
  ◌∷◌, ltb, leb, ◌==◌, if◌then◌else◌, get_or, take, drop, all, bit_and,
}
use tele_bezel.Base.Int.{ℤ, pos, negate}
use tele_bezel.Codec.{Span}

-- `(byte & 0xC0) == 0x80`
unfoldable pub is_continuation : ℕ → Bool
is_continuation byte = bit_and byte 0xC0 == 0x80

-- `while (size > 0 && (data[size] & 0xC0) == 0x80) { --size; }`
unfoldable pub back_up : List ℕ → ℕ → ℕ
back_up bytes zero = zero
back_up bytes (suc size) = elim (is_continuation (get_or bytes (suc size) 0)) [
  | true ↦ back_up bytes size
  | false ↦ suc size
]

-- `tb_utf8_fit`; a null pointer is `none`
unfoldable pub utf8_fit : Option (List ℕ) → ℕ → ℕ → ℕ
utf8_fit none length capacity = 0
utf8_fit (some bytes) length capacity =
    if capacity == 0
    then 0
    else let size = if ltb length (capacity - 1) then length else capacity - 1 in
      if ltb size length then back_up bytes size else size

-- `tb_copy_span`: the bytes that it puts into `out` before the terminator; `none` where `out` has no
-- room at all and stays as it was.
unfoldable pub copy_span : ℕ → Span → Option (List ℕ)
copy_span capacity value =
    if capacity == 0
    then none
    else some (take (utf8_fit (some value.bytes) value.length capacity) value.bytes)

unfoldable pub is_digit : ℕ → Bool
is_digit byte = leb b'0' byte && leb byte b'9'

abbrev pub is_empty : List ℕ → Bool
is_empty [] = true
is_empty (_ ∷ _) = false

-- The loop of `tb_parse_id`, from `*cursor` on. `result` never wraps its `uint64_t`: the test keeps it
-- below 2 ^ 63 (`parse_digits_lem`).
unfoldable pub parse_digits : Bool → List ℕ → ℕ → Option ℤ
parse_digits negative [] result = some (if negative then negate result else pos result)
parse_digits negative (c ∷ cs) result =
    let digit = c - b'0' in
    let next = parse_digits negative cs (result * 10 + digit) in
    if not (is_digit c)
    then none
    else if ltb 922337203685477580 result || (result == 922337203685477580 && ltb 7 digit)
    then if negative && result == 922337203685477580 && digit == 8 && is_empty cs
      then some (negate 9223372036854775808)
      else none
    else next

-- `tb_parse_id`; `none` is `false`, else what goes through `out`.
unfoldable pub parse_id : List ℕ → Option ℤ
parse_id [] = none
parse_id (c ∷ cs) =
    if c == b'-'
    then if is_empty cs then none else parse_digits true cs 0
    else parse_digits false (c ∷ cs) 0

-- What the copying functions return: the flag, and the string left in `out` (`none`: untouched).
abbrev pub Copied : Type 0
Copied = Bool × Option (List ℕ)

-- `tb_copy_id`, from the test of `value.data[start]` on; `out` holds all bytes of the value.
unfoldable pub copy_id_from : List ℕ → List ℕ → Copied
copy_id_from value digits =
    if get_or digits 0 0 == b'0' || not (all is_digit digits)
    then (false, none)
    else elim (parse_id value) [ none ↦ (false, some []) | some key ↦ (true, some value) ]

-- `tb_copy_id`
unfoldable pub copy_id : ℕ → Span → Bool → Copied
copy_id capacity value allow_negative =
    let bytes = take value.length value.bytes in
    if value.length == 0 || leb capacity value.length
    then (false, none)
    else if get_or value.bytes 0 0 == b'-'
    then if not allow_negative || ltb value.length 2
      then (false, none)
      else copy_id_from bytes (drop 1 bytes)
    else copy_id_from bytes bytes

unfoldable pub is_hex : ℕ → Bool
is_hex c = (leb b'0' c && leb c b'9') || (leb b'a' c && leb c b'f') || (leb b'A' c && leb c b'F')

-- The loop of `tb_copy_uuid`, over the bytes from `index` on.
unfoldable pub uuid_from : ℕ → List ℕ → Bool
uuid_from index [] = true
uuid_from index (c ∷ cs) =
    let dash = index == 8 || index == 13 || index == 18 || index == 23 in
    (if dash then c == b'-' else is_hex c) && uuid_from (index + 1) cs

-- `tb_copy_uuid`
unfoldable pub copy_uuid : ℕ → Span → Copied
copy_uuid capacity value =
    if not (value.length == 36) || ltb capacity 37
    then (false, none)
    else if uuid_from 0 (take 36 value.bytes)
    then (true, some (take 36 value.bytes))
    else (false, none)

-- `TbBudget`
pub record Budget : Type 0 where
  pub used : ℕ
  pub limit : ℕ

-- `strlen` of a block whose bytes before its last one are listed, and which ends in a zero byte.
unfoldable pub strlen : List ℕ → ℕ
strlen [] = 0
strlen (c ∷ cs) = if c == 0 then 0 else suc (strlen cs)

-- `tb_budget_copy`: the copy, or a null pointer. Whether `malloc` finds memory is `memory`. The sums
-- of block sizes stay within the heap, so `size_t` does not wrap.
unfoldable pub budget_copy : Bool → Budget → Span → ℕ → Bool → Option (List ℕ) × Budget
budget_copy memory budget value max_length force =
    if value.length == 0
    then (none, budget)
    else let size = utf8_fit (some value.bytes) value.length (max_length + 1) in
      if size == 0 || (not force && ltb budget.limit (budget.used + size + 1)) || not memory
      then (none, budget)
      else (some (take size value.bytes), record budget { used = budget.used + (size + 1) })

-- `tb_budget_free`
unfoldable pub budget_free : Budget → Option (List ℕ) → Budget
budget_free budget none = budget
budget_free budget (some value) =
    let size = strlen value + 1 in
    record budget { used = if ltb size budget.used then budget.used - size else 0 }

-- `tb_or_empty`
unfoldable pub or_empty : Option (List ℕ) → List ℕ
or_empty none = []
or_empty (some value) = value
