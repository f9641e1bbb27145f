-- ===== src/Pager.antt =====
-- internal/pager: the pager-domain page formats.
pub mod Meta
pub mod Rpl
