-- ===== src/Wire.antt =====
-- The binary protocol of pkg/network/protocol.go: frames, the handler of one connection, and its
-- errors. What the client will send before it closes is the list `input`; a write either takes all
-- its bytes or, where `writable` is false, fails. Deadlines and times are left out.
-- `Services` holds what the handler calls: crc32.ChecksumIEEE, gzip, the codecs, encoding/json and
-- the message store.
pub mod Frame
pub mod Handler
pub mod Receive
pub mod Responses
pub mod Stored
pub mod Closed
mod Tests
