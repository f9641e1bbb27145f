-- ===== src/Pager/Rpl.antt =====
-- internal/pager: the retired page log, a chain of segment pages from the newest to the oldest.
pub mod Segment
pub mod Walk
