-- ===== src/Tests.antt =====
-- The theorems applied to concrete inputs.
mod Floats
mod Codecs
mod Files
mod Tables
mod Locks
mod Trees
mod Schemas
mod Texts
mod Pages
mod Statements
