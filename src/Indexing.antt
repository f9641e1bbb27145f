-- ===== src/Indexing.antt =====
-- internal/indexing: the byte-level codecs of the index machinery.
pub mod Key
pub mod SetPk
pub mod Entry
