-- ===== src/Tests.antt =====
-- Concrete runs, and the theorems at concrete inputs.
mod Indexing
mod Descriptor
mod Bitmap
mod Pager
mod Page
mod Rpl
mod CloseGate
mod Subpage
mod Typed
mod Lock
mod Locks
mod Query
