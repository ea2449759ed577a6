-- ===== src/Hashmail/Exclusive.antt =====
-- What holds of hashmail_server.go in every interleaving: one reader and one writer at most, and
-- timers that are not forgotten.
pub mod Kept
pub mod Changed
pub mod Calls
pub mod Boxes
pub mod Sound
