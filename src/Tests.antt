-- ===== src/Tests.antt =====
-- The theorems at concrete inputs.
mod Matrix
mod Chats
mod Sending
mod Polling
mod Requests
mod Texts
mod Loops
mod Ingest
mod Sessions
