-- ===== src/Tests/Codec.antt =====
-- Runs of the decoder of codec.c.
use tele_bezel.Base.{ℕ, ◌≡◌, ◌<◌, ◌^◌, refl, true, some, List, [], ◌∷◌, ◌++◌, arith, length}
use tele_bezel.Codec.{
  Span, Cursor, cursor_init, take_bytes, little, little_from, next, next_content, decode,
  decode_field, decode_number,
}
use tele_bezel.Codec.Layouts.{StatusRecord, AccountRecord, layout_status, layout_account}
use tele_bezel.Codec.Bounds.{Framed, next-Framed}
use tele_bezel.Codec.Frames.{
  Wire, payload, finished, keep, for_records, loop_fuel, is_over, for_records-ends,
  for_records-payload,
}
use tele_bezel.Codec.Fields.{Decodes, Values, Fits, encode, decode-encode}
use tele_bezel.Codec.Complete.{decode_overwrites}

abbrev status : Wire
status = record { type = 7; content = 2 ∷ 1 ∷ [] }

abbrev account : Wire
account = record { type = 1; content = 1 ∷ 65 ∷ 2 ∷ 66 ∷ 67 ∷ 0 ∷ 1 ∷ [] }

abbrev two_records : List Wire
two_records = account ∷ status ∷ []

abbrev body : Cursor
body = record { bytes = status.content; length = 2; offset = 0 }

abbrev start : Cursor
start = record { bytes = payload two_records; length = 15; offset = 0 }

abbrev blank : StatusRecord
blank = record { connection = 0; proxy = 0 }

abbrev other : StatusRecord
other = record { connection = 9; proxy = 9 }

abbrev no_span : Span
no_span = record { bytes = []; length = 0 }

status_decoded :
    decode body layout_status blank
    ≡ (true, record { connection = 2; proxy = 1 }, record body { offset = 2 })
unfolding decode decode_field decode_number take_bytes little little_from layout_status
status_decoded = refl

next-Framed_example :
    Framed start
      (record {
        type = 1;
        body = record { bytes = account.content ++ payload (status ∷ []); length = 7; offset = 0 };
      })
      (next start).1
unfolding next next_content take_bytes little little_from cursor_init
next-Framed_example = next-Framed start _ (omega arith) refl

for_records-ends_example : is_over (for_records keep 16 start []) ≡ true
for_records-ends_example = for_records-ends keep 16 start [] (omega arith) (omega arith)

for_records-payload_example :
    for_records keep (loop_fuel 15) (cursor_init (some (payload two_records)) 15) []
    ≡ finished (status ∷ account ∷ [])
for_records-payload_example = for_records-payload two_records (omega arith)

abbrev account_values : Values (List ℕ) layout_account
unfolding layout_account
account_values = (65 ∷ [], (66 ∷ 67 ∷ [], (0, (1, tt))))

abbrev blank_account : AccountRecord
blank_account = record { id = no_span; name = no_span; state = 9; flags = 9 }

account-Fits :
    Fits layout_account account_values × (length (encode layout_account account_values) < 2 ^ 16)
unfolding layout_account
account-Fits = ((omega arith, (omega arith, (omega arith, (omega arith, tt)))), omega arith)

decode-encode_example :
    Decodes
      (cursor_init
        (some (encode layout_account account_values ++ 7 ∷ []))
        (length (encode layout_account account_values)))
      layout_account
      account_values
      blank_account
decode-encode_example =
    decode-encode layout_account account_values blank_account (7 ∷ []) account-Fits.0 account-Fits.1

decode_overwrites_example : decode body layout_status other ≡ decode body layout_status blank
unfolding decode decode_field decode_number take_bytes little little_from layout_status
decode_overwrites_example = decode_overwrites layout_status body blank other (λ ss o o'. refl) refl
