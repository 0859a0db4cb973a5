-- ===== src/Index.antt =====
-- tinydb/index/btree.py: keys and lookups, and the B-tree that holds the entries.
pub mod Keys
pub mod Node
pub mod Order
pub mod Insert
pub mod Filled
pub mod InsertParts
pub mod InsertWalk
pub mod Domains
pub mod Tree
pub mod TreeInsert
pub mod TreeDelete
pub mod Serial
pub mod Bulk
pub mod Sizes
pub mod BulkWalk
