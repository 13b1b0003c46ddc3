-- ===== src/Lib.antt =====
-- The core logic of the watch application (app/src/c), without its windows and the platform.
--
-- The phone answers requests with chunks of bytes. The request layer (request_layer.c) holds the
-- requests in flight, retries them and hands each answer to the view that asked. A view walks the
-- records of an answer with `tb_codec_next`, decodes each record with `tb_codec_decode` over a table
-- (codec.c), and keeps strings with the helpers of text.c. Pictures go through the
-- decoder of image.c. The views show notices through notify.c and refresh by the gesture of pull.c.
-- A message that is sent is followed by send_tracker.c until it is settled.
--
-- Codec (app/src/c/codec.c, codec.h): `cursor_init`, `take_bytes`, `little`, `decode`, `next` are
--   tb_cursor_init, take, little, tb_codec_decode, tb_codec_next; Codec/Layouts has the record types and
--   the tables, where the offset of an entry is the write to its field. Codec/Bounds, Codec/Frames,
--   Codec/Fields, Codec/Complete have the theorems; `for_records` of Codec/Frames is the loop over the
--   records that each view runs, its body a parameter.
-- Text (app/src/c/text.c, text.h): `utf8_fit`, `copy_span`, `copy_id`, `copy_uuid`, `parse_id`,
--   `budget_copy`, `budget_free`, `or_empty`. Text/Utf8, Text/Ids, Text/Budgets, Text/Copies have the theorems.
-- Image (app/src/c/image.c, image.h): Image/Decoder has the state of TbImageDecoder and the feeding of
--   bytes, Image/Rows the geometry, Image/Crc the checksum; Image/Output, Image/Tokens, Image/Stream and
--   Image/Rows/Root have the theorems.
-- Requests (app/src/c/request_layer.c, request_layer.h): Requests/Layer has the slots and the static
--   functions, Requests/Calls the functions of the header, Requests/Sequence the theorems. The ports
--   and the callbacks are a record of functions on a world, which includes the clients' state.
-- Notify (app/src/c/notify.c, notify.h): the notifications of the three sources; Notify/Sources and
--   Notify/Top have the theorems.
-- Pull (app/src/c/pull.c, pull.h): the pull gesture as a state machine; Pull/Levels and Pull/Phases
--   have the theorems.
-- Errors (app/src/c/errors.c, errors.h): the error codes of answers.
-- Sending (app/src/c/send_tracker.c, send_tracker.h): the message that is being sent; Sending/Calls has
--   the functions that need the protocol's codes and the request layer, which are parameters;
--   Sending/Stuck and Sending/Settled have the theorems.
-- Connection (app/src/c/connection.c, connection.h): the state of an account's connection, which is
--   polled while it is not ready; Connection/Polling has the theorem on how long and how often.
-- Reading (app/src/c/message_text.c, message_text.h): the whole text of a message; Reading/Room has the
--   theorem on its block. The growth of the block takes as many rounds at most as the length asked for.
-- Session (app/src/c/session.c, session.h): the greeting of the phone, the accounts and the preferences.
--   Session/Bootstrap is `parse`, Session/Calls has the functions, Session/Accounts the choice of the
--   first account; Session/Sound and Session/Reached have the invariant.
-- History (app/src/c/history.c, history.h): the messages of a chat. History/Staging has the page that
--   arrives, History/Merging the sorting, merging and eviction, History/Pages what follows a page and
--   the timers, History/Calls the functions of the header. History/Order, Merged, Albums (order of the
--   keys), Limits, Staged (the arrays), Memory, Paid (the budget), Sound, Kept, Replies, Reached (the
--   invariant), Ends, Answered, Found and Split have the theorems. Ids in it have no minus, so keys are
--   natural numbers; `heap` says whether a string gets its block.
-- Chats (app/src/c/chats.c, chats.h): the list of chats. Chats/Items has `append` and `parse`, Chats/Calls
--   the functions of the header; Chats/Sound and Chats/Reached have the invariant.
-- Compose (app/src/c/compose.c, compose.h): templates and the draft that is made. Compose/Parts has the
--   records of an answer, Compose/Calls the functions; Compose/Sound, Compose/Answers and
--   Compose/Reached have the invariant.
-- Base has what the modules share: Boolean tests, lists and words over the native numbers. Tests has
-- the modules' runs at concrete inputs.
--
-- The clients of the request layer (Sending, Connection, Reading, Session, History, Chats, Compose) see it
-- as the record of operations `Requests` of Sending. A submit calls no client back, and a cancel does so
-- with a cancelled outcome only, which the clients drop.
-- Notify, Pull, Sending, Connection, Session, History, Chats and Compose call their ports only to announce
-- a change, to set a timer, to pass records on or to trigger a refresh: those calls are a log in the
-- state, or are counted, and the clock is an argument that stands still during a call.
-- A pointer into bytes is the list of bytes from its place on; a null pointer is `none`. Words wrap where
-- the source's type can: a wrap that cannot occur is left out, with the reason where it is left out.
-- Fuel: the loop over records takes one more than the bytes that are left (each record takes three);
-- the two loops of the square root take 17 rounds, since `bit` is zero after sixteen; the search for a
-- sequence takes 2 ^ 33 rounds, twice the numbers there are.
--
-- Not modelled: canvases of 2 ^ 15 and more, where the casts of image.c to `int16_t` change values; the
-- freeing of a whole view (tb_history_deinit, tb_chats_deinit); media.c, format.c and gesture.c; the
-- windows and main.c, which draw and call the platform; the phone's side and the backends, which are in
-- other languages.
pub mod Base
pub mod Chats
pub mod Codec
pub mod Compose
pub mod Connection
pub mod Errors
pub mod History
pub mod Image
pub mod Notify
pub mod Pull
pub mod Reading
pub mod Requests
pub mod Sending
pub mod Session
pub mod Tests
pub mod Text
