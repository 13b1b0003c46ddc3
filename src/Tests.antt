-- ===== src/Tests.antt =====
-- Runs of the models on concrete inputs, and the theorems at inputs that meet their hypotheses.
mod Codec
mod Text
mod Image
mod Requests
mod Pull
mod Notify
mod Sending
mod Connection
mod Reading
mod History
mod Session
mod Chats
mod Compose
