-- ===== src/Image.antt =====
-- app/src/c/image.c and image.h: the decoder of watch images. Image/Decoder has the state
-- and the feeding of bytes, Image/Rows the geometry of a row, Image/Crc the checksum.
pub mod Rows
pub mod Crc
pub mod Decoder
pub mod Stream
pub mod Output
pub mod Tokens
