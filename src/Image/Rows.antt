-- ===== src/Image/Rows.antt =====
-- The geometry of image.c: `tb_image_isqrt`, `tb_image_row`, `tb_image_size`, `tb_image_pixel`. The
-- coordinates are exact for canvases below 2 ^ 15 in both directions, where the casts to `int16_t` and
-- the `int32_t` products keep their values; larger canvases are not modelled.
pub mod Root
use tele_bezel.Base.{
  ℕ, zero, suc, ◌+◌, ◌-◌, ◌*◌, ◌/◌, ◌%◌, ◌^◌, Bool, true, false, ◌&&◌, List, ltb, leb, ◌==◌,
  if◌then◌else◌, get_or, bit_and,
}

-- `while (bit > value) { bit >>= 2; }`; `bit` is zero after sixteen rounds.
unfoldable pub skip_bits : ℕ → ℕ → ℕ → ℕ
skip_bits zero value bit = bit
skip_bits (suc fuel) value bit = elim (ltb value bit) [
  | true ↦ skip_bits fuel value (bit / 4)
  | false ↦ bit
]

-- `while (bit) { ... }`
unfoldable pub root_bits : ℕ → ℕ → ℕ → ℕ → ℕ
root_bits zero value root bit = root
root_bits (suc fuel) value root bit = elim (bit == 0) [
  | true ↦ root
  | false ↦ elim (leb (root + bit) value) [
    | true ↦ root_bits fuel (value - (root + bit)) (root / 2 + bit) (bit / 4)
    | false ↦ root_bits fuel value (root / 2) (bit / 4)
  ]
]

-- `tb_image_isqrt`. No sum wraps: `root + bit` is below 2 ^ 32 (see Root).
unfoldable pub isqrt : ℕ → ℕ
isqrt value = root_bits 17 value 0 (skip_bits 17 value (2 ^ 30)) % 2 ^ 16

-- `TbImageHeader`
pub record Header : Type 0 where
  pub bits : ℕ
  pub shape : ℕ
  pub colors : ℕ
  pub width : ℕ
  pub height : ℕ
  pub canvas_width : ℕ
  pub canvas_height : ℕ
  pub tag : ℕ
  pub crc : ℕ
  pub palette : List ℕ

-- `TbImageRow`; for a valid header its coordinates are not negative.
pub record Row : Type 0 where
  pub x : ℕ
  pub y : ℕ
  pub count : ℕ
  pub bytes : ℕ

abbrev pub left : Header → ℕ
left h = (h.canvas_width - h.width) / 2

abbrev pub top : Header → ℕ
top h = (h.canvas_height - h.height) / 2

-- The magnitude of `dy`, which is used squared and compared with `diameter` on both sides only.
abbrev pub dy : Header → ℕ → ℕ
dy h y =
    if ltb (2 * y + 1) h.canvas_height
    then h.canvas_height - (2 * y + 1)
    else 2 * y + 1 - h.canvas_height

-- The span of a round image's row, `from` and `to` before they are clipped. `from` is one more here,
-- so that it is not negative; C rounds `(diameter - half - 1) / 2` to zero.
abbrev pub chord : Header → ℕ → ℕ × ℕ
chord h y =
    let diameter = h.canvas_width in
    let half = isqrt (diameter * diameter - dy h y * dy h y) in
    if ltb (dy h y) diameter
    then ((diameter - half - 1) / 2, (diameter + half - 1) / 2 + 2)
    else (1, 0)

-- `tb_image_row`
unfoldable pub image_row : Header → ℕ → Row
image_row h index =
    let y = top h + index in
    let (from_1, to) = chord h y in
    let from' = if ltb from_1 (left h + 1) then left h else from_1 - 1 in
    let to' = if ltb (left h + h.width) to then left h + h.width else to in
    let x = if h.shape == 1 then from' else left h in
    let count = if h.shape == 1 then if ltb from' to' then to' - from' else 0 else h.width in
    record { x = x; y = y; count = count; bytes = (count * h.bits + 7) / 8 % 2 ^ 16 }

-- The loop of `tb_image_size`, with the rows that are left.
unfoldable pub size_from : Header → ℕ → ℕ → ℕ
size_from h zero y = 0
size_from h (suc rows) y = (image_row h y).bytes + size_from h rows (y + 1)

-- `tb_image_size`; the sum of fewer than 2 ^ 16 numbers below 2 ^ 16 does not wrap.
unfoldable pub image_size : Header → ℕ
image_size h = size_from h h.height 0

-- `tb_image_pixel`
unfoldable pub image_pixel : Header → List ℕ → ℕ → ℕ
image_pixel h row index =
    let bit = index * h.bits % 2 ^ 16 in
    get_or row (bit / 8) 0 / 2 ^ (8 - h.bits - bit % 8) % 2 ^ h.bits
