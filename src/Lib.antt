-- ===== src/Lib.antt =====
-- The storage engine gmdb: its on-disk codecs, its allocation bitmap, its retired page log, its close gate,
-- its reader table, its column encoders and its query combiners.
--
-- Parts and files. Paths are those of the repository.
--
-- Common: the names shared by the other modules. Common/Lists has lists over the native numbers,
-- Common/Tests the Boolean tests, Common/Order the byte order (bytes.Compare) and Common/ByteOrder its
-- laws, Common/Bits and its children the bit operations, Common/Buffer and its children byte buffers with
-- the little-endian reads and writes of encoding/binary, Common/Count sums over lists. A byte is a number
-- below 256, a uint64 a number below 2 ^ 64. A write into a buffer is the whole new buffer.
--
-- Page: internal/page. Config is page.go, the page types, the configuration and the sizes it fixes;
-- Header is the 8-byte page header and the checksum footer of the same file. Overflow is overflow.go, the
-- runs of pages that hold a long value: their length, the writer, the decoder and the digest of the whole
-- run. The writer's callback acts on a state; in the Page/Overflow/RoundTrip module it is a file region.
-- Subpage is subpage.go, the sorted set of values of one key inside a leaf cell: Page/Subpage has the reader,
-- Validate and AllValues, Page/Subpage/Edit has Search, Insert, Delete and EncodeSubpage, and the modules
-- below relate them to sorted lists (Sorted) and sets (Sets, Membership); Reads and Sound go from what
-- Validate accepts back to such a list. The binary search is on fuel, a
-- unit for each entry, more than enough for a range that halves.
--
-- Descriptor: internal/descriptor/descriptor.go, the 40-byte descriptor of a keyspace (Decode, Encode,
-- Validate, ApplyToConfig). A buffer that is too short is `none`, the panic of the code.
--
-- Indexing: internal/indexing. Key is key.go (EscapeColumn, UnescapeColumn, EncodeKey, DecodeKey), SetPk
-- is setpk.go, the compound primary key of an index on a set keyspace, and Entry is entry.go, the key and
-- the value of one index entry. The loops walk a byte string and are structural recursion on it. The
-- varints of encoding/binary are modelled beside Entry as documented there.
--
-- Bitmap: internal/bitmap/bitmap.go, the allocation bitmap: bytes, the summary of non-zero words, the
-- dirty set, the undo log and the open snapshots. A panic is `none`. Bitmap/Snapshots is Snapshot, Restore
-- and Discard; Bitmap/Snapshots/Scopes is the discipline in which the pager uses them, runs of operations
-- with properly nested snapshots. Bitmap/Scan is FindFirst and FindFirstBelowFrom with their loop over the
-- words, scanForward, on fuel, one unit for each word below the end: a step goes on by a word or more. Bitmap/Flips
-- and Bitmap/Invariant are about Set and Clear. Pointers to snapshots are told apart by an address, `ref`.
--
-- Pager: internal/pager. Meta is meta.go, the two meta pages: the codec (DecodeMeta, EncodeMeta), the
-- checksum (VerifyMeta), ValidateMeta and the choice of the active page (ActiveMeta). XXH3-64 is the
-- parameter `hash`; all that is assumed of it is that its values are 64-bit. Rpl is the retired page log:
-- Rpl/Segment is rplformat.go, the codec of one segment page, and Rpl/Walk is rplwalk.go, the walk over the
-- chain of segments. Its loop is on fuel: each turn counts one segment and the count is bounded by the
-- meta's entry count, so that three more turns than that are enough.
--
-- Typed: typed/typed_encoder.go, the column encoders of fixed width, whose byte order is the order of the
-- values. An int64 is an integer (Common/Integers) in its range, and the conversions of Go are written out.
-- Common/BigEndian has what is used of encoding/binary's BigEndian.
--
-- CloseGate: internal/closegate/closegate.go, the gate between Close and the cleanups of leaked
-- transactions. CloseGate/Steps is the step relation: each operation of sync/atomic is one step, in any
-- order between any number of cleanups of write transactions (tx.go), which work only behind the answer
-- true, of cleanups of read transactions (read_tx.go), which release their slot whatever the answer, and of
-- closers (db.go). Memory is sequentially consistent, as
-- the Go memory model says of sync/atomic.
--
-- Lock: internal/lock/reader.go, the table of readers in the lock file, on its Linux backend. Lock.antt has
-- the operations, one function each, as AcquireReaderSlot, ReleaseReaderSlot, RaiseReaderSlotTxnID,
-- OldestReaderTxnID, ReapStaleReaderSlots and CountActiveReaders. Lock/Kernel is what they rely on of the
-- kernel's open-file-description locks, as a parameter: a granted lock was free or one's own, contention
-- means that another description holds it, and the exit of a process drops its locks. Lock/Steps is the
-- step relation: any number of handles try, release, raise, probe and die in any order. A try or a probe is
-- one act, since the slot's lock is held across its stores; a release is four, since it leaves the hold set
-- first. A handle in the steps does not try a slot that it is itself still releasing. The code has no guard
-- against that, and the kernel grants a lock again through its own description: Lock/Race is that
-- interleaving. The tests of a slot's transaction id in front of a try or
-- a probe may be out of date by then, so that the steps do not rely on them. The loops are over the slots
-- of the table, so that no fuel is chosen.
--
-- Query: query/combiners.go, the union and the intersection of index leaves, with the budget's meter of
-- query/ordering.go. What leafDrive (query/query.go) reads of an index is a value: the rows, and the error it
-- leaves in q.err once they are drained; where the leaf needs dedup, its set and its charges of the shared
-- meter are modelled. The caller's tail is a parameter. A plan that merges has seeks alone, which need no
-- dedup. Query/Minimum, Query/Heads and
-- Query/Merge are the k-way merge, whose loop is on fuel: each turn takes a row off a branch, so that one
-- turn more than there are rows is enough. Query/Feed, Query/Hash and Query/Intersect are the arms that keep a set.
--
-- Tests: runs on concrete data, and the theorems at concrete inputs.
--
-- How they interact: the bitmap decides which pages are free, the pager writes pages and at last the meta
-- page that names the roots, whose descriptors hold the keyspaces; index entries are ordinary keys and
-- values in an internal keyspace, so that the order of their bytes is the order of a scan. The reader table
-- tells the writer which transactions are still read: the retired pages of an older one may be reused.
--
-- Not modelled: the B+tree, the page formats of leaves and branches, the write lock and the transactions,
-- the query planner and its orderings, the encoders of times and of JSON values, and everything that only
-- calls the operating system.
pub mod Common
pub mod Page
pub mod Descriptor
pub mod Indexing
pub mod Bitmap
pub mod Pager
pub mod CloseGate
pub mod Typed
pub mod Lock
pub mod Query
pub mod Tests
