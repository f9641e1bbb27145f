-- ===== src/Page.antt =====
-- internal/page: the wire base of every persisted format.
pub mod Config
pub mod Header
pub mod Overflow
pub mod Subpage
