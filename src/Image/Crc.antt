-- ===== src/Image/Crc.antt =====
-- `tb_image_crc`, and the readers of little-endian words of image.c.
use Prim.Native.Nat.{bit_xor}
use tele_bezel.Base.{
  ℕ, zero, suc, ◌+◌, ◌-◌, ◌*◌, ◌/◌, ◌%◌, ◌^◌, List, [], ◌∷◌, get_or, drop, bit_and, sub32,
}

-- One round of the inner loop: `(crc >> 1) ^ (0xEDB88320u & (0u - (crc & 1u)))`.
unfoldable pub crc_bit : ℕ → ℕ
crc_bit crc = bit_xor (crc / 2) (bit_and 0xEDB88320 (sub32 0 (crc % 2)))

unfoldable pub crc_bits : ℕ → ℕ → ℕ
crc_bits zero crc = crc
crc_bits (suc rounds) crc = crc_bits rounds (crc_bit crc)

unfoldable pub crc_bytes : ℕ → List ℕ → ℕ
crc_bytes crc [] = crc
crc_bytes crc (byte ∷ bytes) = crc_bytes (crc_bits 8 (bit_xor crc byte)) bytes

-- `~crc`
abbrev pub complement32 : ℕ → ℕ
complement32 n = 2 ^ 32 - 1 - n

-- `tb_image_crc`
unfoldable pub image_crc : ℕ → List ℕ → ℕ
image_crc crc bytes = complement32 (crc_bytes (complement32 crc) bytes)

-- `le16`, `le32`
unfoldable pub le16 : List ℕ → ℕ
le16 bytes = get_or bytes 0 0 + get_or bytes 1 0 * 256

unfoldable pub le32 : List ℕ → ℕ
le32 bytes = le16 bytes + le16 (drop 2 bytes) * 2 ^ 16
