-- ===== src/Tests/Image.antt =====
-- Runs of the functions of image.c.
use tele_bezel.Base.{◌≡◌, ◌<◌, ◌^◌, refl, true, some, List, [], ◌∷◌, ◌++◌, arith}
use tele_bezel.Image.Rows.{isqrt}
use tele_bezel.Image.Rows.Root.{IsRoot, isqrt-IsRoot}
use tele_bezel.Image.Crc.{image_crc, crc_bytes, crc_bits, crc_bit}
use tele_bezel.Image.Decoder.{
  Decoder, literal, reset, feed, run, finish, step, step_op, step_start, step_literal, emit,
}
use tele_bezel.Image.Output.{copied}
use tele_bezel.Image.Stream.{feed-append}
use tele_bezel.Image.Tokens.{
  Token, literals, repeats, copies, Between, tokens_bytes, expand_all, run-tokens,
}

-- A decoder that has read its header and has ten cells.
abbrev ready : Decoder
unfolding reset
ready = record reset {
  header_read = true;
  pixels = some (0 ∷ 0 ∷ 0 ∷ 0 ∷ 0 ∷ 0 ∷ 0 ∷ 0 ∷ 0 ∷ 0 ∷ []);
  size = 10;
}

-- Two bytes as they are, three of one byte, and five from two places back.
abbrev tokens : List Token
tokens = literals (1 ∷ 2 ∷ []) ∷ repeats 3 7 ∷ copies 5 2 ∷ []

isqrt-IsRoot_example : IsRoot 99 (isqrt 99) × (isqrt 99 < 2 ^ 16)
isqrt-IsRoot_example = isqrt-IsRoot 99 (omega arith)

feed-append_example :
    ((feed ready ((1 ∷ 5 ∷ []) ++ (6 ∷ 9 ∷ []))).0
      ≡ (feed
          (record ready {
            pixels = some (5 ∷ 0 ∷ 0 ∷ 0 ∷ 0 ∷ 0 ∷ 0 ∷ 0 ∷ 0 ∷ 0 ∷ []);
            filled = 1;
            op = literal;
            remaining = 1;
          })
          (6 ∷ 9 ∷ [])).0)
    × ((feed ready ((1 ∷ 5 ∷ []) ++ (6 ∷ 9 ∷ []))).2
        ≡ (feed
            (record ready {
              pixels = some (5 ∷ 0 ∷ 0 ∷ 0 ∷ 0 ∷ 0 ∷ 0 ∷ 0 ∷ 0 ∷ 0 ∷ []);
              filled = 1;
              op = literal;
              remaining = 1;
            })
            (6 ∷ 9 ∷ [])).2)
unfolding feed run finish step step_op step_start step_literal emit ready
feed-append_example = feed-append ready _ (1 ∷ 5 ∷ []) (6 ∷ 9 ∷ []) 2 refl refl refl

run-tokens_example :
    (d : Decoder) × (run ready (tokens_bytes tokens) ≡ (true, d))
    × Between ready d (expand_all [] tokens)
unfolding reset ready copied
run-tokens_example =
    run-tokens ready ready tokens [] (_, 0, 0, refl, (omega arith, refl), omega arith)
      (
        (omega arith, omega arith),
        (
          (omega arith, omega arith),
          ((omega arith, omega arith, omega arith, omega arith, omega arith), tt),
        ),
      )
      (omega arith)

crc_check : image_crc 0 (49 ∷ 50 ∷ 51 ∷ 52 ∷ 53 ∷ 54 ∷ 55 ∷ 56 ∷ 57 ∷ []) ≡ 0xCBF43926
unfolding image_crc crc_bytes crc_bits crc_bit
crc_check = refl
