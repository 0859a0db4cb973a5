-- ===== src/Storage.antt =====
-- tinydb/storage/file.py: the database file, its pages and its header, and the recovery of a
-- transaction that was cut off.
pub mod Bytes
pub mod State
pub mod Actions
pub mod Header
pub mod Pages
pub mod Snapshot
pub mod Open
pub mod HeaderRoundTrip
pub mod PageLaws
pub mod PageAccess
pub mod Restore
pub mod Chunks
pub mod Recovery
pub mod Reopen
pub mod Writes
pub mod Crash
pub mod Growth
pub mod Commit
