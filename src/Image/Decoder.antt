-- ===== src/Image/Decoder.antt =====
-- `TbImageDecoder` of image.c and the feeding of bytes to it.
use tele_bezel.Base.{
  ℕ, zero, suc, ◌+◌, ◌-◌, ◌*◌, ◌%◌, ◌^◌, Bool, true, false, not, ◌&&◌, ◌||◌, Option, none, some,
  List, [], ◌∷◌, ltb, leb, ◌==◌, if◌then◌else◌, get_or, set, length, take, drop, replicate,
}
use tele_bezel.Image.Rows.{Header, image_size}
use tele_bezel.Image.Crc.{image_crc, le16, le32}

-- The `OP_` constants.
pub data Op : Type 0 where
  no_op literal repeat distance_low distance_high : Op

abbrev pub is_no_op : Op → Bool
is_no_op no_op = true
is_no_op _ = false

-- `TbImageStatus`
pub data Status : Type 0 where
  more header_ready done bad : Status

-- `TbImageDecoder`; `pixels` is null until the client allocates it.
pub record Decoder : Type 0 where
  pub header : Header
  pub head : List ℕ
  pub head_length : ℕ
  pub header_read : Bool
  pub pixels : Option (List ℕ)
  pub size : ℕ
  pub filled : ℕ
  pub op : Op
  pub remaining : ℕ
  pub distance : ℕ

abbrev pub header_size : ℕ
header_size = 22

abbrev pub max_colors : ℕ
max_colors = 16

-- `tb_image_reset`
unfoldable pub reset : Decoder
reset = record {
  header = record {
    bits = 0;
    shape = 0;
    colors = 0;
    width = 0;
    height = 0;
    canvas_width = 0;
    canvas_height = 0;
    tag = 0;
    crc = 0;
    palette = replicate max_colors 0;
  };
  head = replicate (header_size + max_colors) 0;
  head_length = 0;
  header_read = false;
  pixels = none;
  size = 0;
  filled = 0;
  op = no_op;
  remaining = 0;
  distance = 0;
}

-- `header_valid`
unfoldable pub header_valid : List ℕ → Bool
header_valid head =
    let bits = get_or head 3 0 in
    let width = le16 (drop 6 head) in
    let height = le16 (drop 8 head) in
    get_or head 0 0 == b'T'
    && get_or head 1 0 == b'B'
    && get_or head 2 0 == 1
    && (bits == 1 || bits == 2 || bits == 4)
    && leb (get_or head 4 0) 1
    && leb 1 (get_or head 5 0)
    && leb (get_or head 5 0) (2 ^ bits)
    && ltb 0 width
    && ltb 0 height
    && leb width (le16 (drop 10 head))
    && leb height (le16 (drop 12 head))

-- The header that `parse_header` reads.
unfoldable pub header_of : List ℕ → List ℕ → Header
header_of head palette = record {
  bits = get_or head 3 0;
  shape = get_or head 4 0;
  colors = get_or head 5 0;
  width = le16 (drop 6 head);
  height = le16 (drop 8 head);
  canvas_width = le16 (drop 10 head);
  canvas_height = le16 (drop 12 head);
  tag = le32 (drop 14 head);
  crc = le32 (drop 18 head);
  palette = palette;
}

-- `memcpy` of `n` bytes over the start of an array
abbrev pub overlay : ℕ → List ℕ → List ℕ → List ℕ
overlay zero from to = to
overlay (suc n) from [] = []
overlay (suc n) [] (x ∷ to) = 0 ∷ overlay n [] to
overlay (suc n) (y ∷ from) (x ∷ to) = y ∷ overlay n from to

-- `parse_header`
unfoldable pub parse_header : Decoder → Bool × Decoder
parse_header d =
    let palette = overlay (get_or d.head 5 0) (drop header_size d.head) d.header.palette in
    let header = header_of d.head palette in
    let size = image_size header in
    if size == 0 || ltb (2 ^ 16 - 1) size
    then (false, record d { header = header })
    else (true, record d { header = header; size = size })

abbrev pub put : Option (List ℕ) → ℕ → ℕ → Option (List ℕ)
put none i value = none
put (some cells) i value = some (set cells i value)

abbrev pub pixel_bytes : Option (List ℕ) → List ℕ
pixel_bytes none = []
pixel_bytes (some cells) = cells

abbrev pub is_null : Option (List ℕ) → Bool
is_null none = true
is_null (some cells) = false

-- A cell of the pixels.
abbrev pub cell : Option (List ℕ) → ℕ → ℕ
cell none i = 0
cell (some cells) i = get_or cells i 0

-- `emit`. `filled` is below `size`, a `uint16_t`, where it grows, so it does not wrap.
unfoldable pub emit : Decoder → ℕ → Bool × Decoder
emit d value =
    if leb d.size d.filled
    then (false, d)
    else (true, record d { pixels = put d.pixels d.filled value; filled = d.filled + 1 })

-- The loop `while (decoder->remaining)` of `OP_REPEAT`, with the rounds that are left.
unfoldable pub emit_repeat : ℕ → ℕ → Decoder → Bool × Decoder
emit_repeat zero byte d = (true, d)
emit_repeat (suc n) byte d =
    let (go, d') = emit d byte in
    elim go [ false ↦ (false, d') | true ↦ emit_repeat n byte (record d' { remaining = n }) ]

-- The loop of a copy: the byte is the one `distance` places back.
unfoldable pub emit_copy : ℕ → Decoder → Bool × Decoder
emit_copy zero d = (true, d)
emit_copy (suc n) d =
    let (go, d') = emit d (cell d.pixels (d.filled - d.distance)) in
    elim go [ false ↦ (false, d') | true ↦ emit_copy n (record d' { remaining = n }) ]

-- What `step` does after a loop that went through.
abbrev pub close_op : Bool × Decoder → Bool × Decoder
close_op (go, d) = elim go [ false ↦ (false, d) | true ↦ (true, record d { op = no_op }) ]

-- `case OP_NONE`
unfoldable pub step_start : Decoder → ℕ → Bool × Decoder
step_start d byte =
    if ltb byte 0x80
    then (true, record d { op = literal; remaining = byte + 1 })
    else if ltb byte 0xC0
    then (true, record d { op = repeat; remaining = byte % 64 + 3 })
    else (true, record d { op = distance_low; remaining = byte % 64 + 3 })

-- `case OP_LITERAL`; `remaining` is at least one here, or its `uint8_t` would wrap.
unfoldable pub step_literal : Decoder → ℕ → Bool × Decoder
step_literal d byte =
    let (go, d') = emit d byte in
    let left = (d'.remaining + 2 ^ 8 - 1) % 2 ^ 8 in
    elim go [
      | false ↦ (false, d')
      | true ↦ (true, record d' { remaining = left; op = if left == 0 then no_op else d'.op })
    ]

-- The last case of `step`: the second byte of the distance, which has no bit of the first.
unfoldable pub step_distance : Decoder → ℕ → Bool × Decoder
step_distance d byte =
    let distance = d.distance + byte * 256 in
    let d' = record d { distance = distance } in
    if distance == 0 || ltb d.filled distance
    then (false, d')
    else close_op (emit_copy d.remaining d')

unfoldable pub step_op : Op → Decoder → ℕ → Bool × Decoder
step_op no_op d byte = step_start d byte
step_op literal d byte = step_literal d byte
step_op repeat d byte = close_op (emit_repeat d.remaining byte d)
step_op distance_low d byte = (true, record d { distance = byte; op = distance_high })
step_op distance_high d byte = step_distance d byte

-- `step`
unfoldable pub step : Decoder → ℕ → Bool × Decoder
step d byte = step_op d.op d byte

-- The loop of `tb_image_feed` over the pixels' bytes: `false` is `TB_IMAGE_BAD`.
unfoldable pub run : Decoder → List ℕ → Bool × Decoder
run d [] = (true, d)
run d (byte ∷ bytes) =
    let (go, d') = step d byte in
    elim (leb d.size d.filled && is_no_op d.op) [
      | true ↦ (false, d)
      | false ↦ elim go [ false ↦ (false, d') | true ↦ run d' bytes ]
    ]

-- What `tb_image_feed` returns, with `*used` and the decoder.
abbrev pub Fed : Type 0
Fed = Status × ℕ × Decoder

-- The loop over the header's bytes.
unfoldable pub feed_head : Decoder → List ℕ → ℕ → Fed
feed_head d [] offset = (more, offset, d)
feed_head d (byte ∷ bytes) offset =
    let n = d.head_length + 1 in
    let d' = record d { head = set d.head d.head_length byte; head_length = n } in
    elim (n == header_size && not (header_valid d'.head)) [
      | true ↦ (bad, 0, d')
      | false ↦ elim (leb header_size n && n == header_size + get_or d'.head 5 0) [
        | true ↦
            let (ok, d'') = parse_header d' in
            if ok
            then (header_ready, offset + 1, record d'' { header_read = true })
            else (bad, 0, d'')
        | false ↦ feed_head d' bytes (offset + 1)
      ]
    ]

-- The end of `tb_image_feed`, after `length` bytes of pixels.
unfoldable pub finish : Decoder → ℕ → Fed
finish d length =
    if ltb d.filled d.size || not (is_no_op d.op)
    then (more, length, d)
    else if image_crc 0 (take d.size (pixel_bytes d.pixels)) == d.header.crc
    then (done, length, d)
    else (bad, length, d)

-- `tb_image_feed`; the list is the `length` bytes at `data`.
unfoldable pub feed : Decoder → List ℕ → Fed
feed d bytes =
    if not d.header_read
    then feed_head d bytes 0
    else if is_null d.pixels
    then (bad, 0, d)
    else let (go, d') = run d bytes in if go then finish d' (length bytes) else (bad, 0, d')
