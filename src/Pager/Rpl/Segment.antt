-- ===== src/Pager/Rpl/Segment.antt =====
-- internal/pager/rplformat.go: one segment page of the retired page log. `none` is a panic, and inside
-- `some` the second result of DecodeRPLSegment is an Option, too.
pub mod RoundTrip
use gmdb.Common.{
  ℕ, zero, suc, ◌+◌, ◌-◌, ◌*◌, ◌/◌, ◌%◌, ◌^◌, List, [], ◌∷◌, Bytes, Option, none, some, ltb, ◌==◌,
  not, if◌then◌else◌, length,
}
use gmdb.Common.Buffer.{get_uint64, put_uint64, clear}
use gmdb.Page.Config.{Config, type_rpl_segment, footer_size, must_validate, content_end}
use gmdb.Page.Header.{Header, read_header, put_header}

-- `RPLHeaderSize`, and the offsets of the transaction id and of the older segment.
abbrev pub rpl_header_size : ℕ
rpl_header_size = 24

abbrev pub rpl_off_txn_id : ℕ
rpl_off_txn_id = 8

abbrev pub rpl_off_older_segment : ℕ
rpl_off_older_segment = 16

-- `RPLEntriesPerSegment` on a valid configuration.
unfoldable pub entries_per_segment : Config → ℕ
entries_per_segment cfg =
    (if cfg.page_checksum
      then cfg.page_size - rpl_header_size - footer_size
      else cfg.page_size - rpl_header_size)
    / 8

-- `RPLSegment`
pub record RplSegment : Type 0 where
  pub txn_id : ℕ
  pub older_segment : ℕ
  pub page_ids : List ℕ

-- The read loop of `DecodeRPLSegment`: `n` ids from `off` on.
unfoldable pub read_ids : Bytes → ℕ → ℕ → List ℕ
read_ids buf off zero = []
read_ids buf off (suc n) = get_uint64 buf off ∷ read_ids buf (off + 8) n

-- The tests of `DecodeRPLSegment` on the page header, and its reads.
unfoldable pub decode_body : Bytes → Config → Header → Option RplSegment
unfolding read_ids entries_per_segment
decode_body buf cfg header =
    if not (header.typ == type_rpl_segment)
    then none
    else if ltb (entries_per_segment cfg) header.count
    then none
    else some (record {
      txn_id = get_uint64 buf rpl_off_txn_id;
      older_segment = get_uint64 buf rpl_off_older_segment;
      page_ids = read_ids buf rpl_header_size header.count;
    })

-- `DecodeRPLSegment`
unfoldable pub decode_rpl_segment : Bytes → Config → Option (Option RplSegment)
unfolding decode_body must_validate read_header
decode_rpl_segment buf cfg = must_validate cfg (
    if ltb (length buf) cfg.page_size
    then some none
    else elim (read_header buf) [ none ↦ none | some header ↦ some (decode_body buf cfg header) ])

-- The write loop of `EncodeRPLSegment`: the ids from `off` on.
unfoldable pub write_ids : Bytes → ℕ → List ℕ → Bytes
write_ids buf off [] = buf
write_ids buf off (id ∷ ids) = write_ids (put_uint64 buf off id) (off + 8) ids

-- The writes of `EncodeRPLSegment`.
unfoldable pub write_segment : Bytes → Config → ℕ → ℕ → List ℕ → Bytes
unfolding write_ids put_header content_end
write_segment buf cfg txn_id older_segment page_ids =
    let buf = put_header buf type_rpl_segment (length page_ids % 2 ^ 16) 0 in
    let buf = put_uint64 buf rpl_off_txn_id txn_id in
    let buf = put_uint64 buf rpl_off_older_segment older_segment in
    let buf = write_ids buf rpl_header_size page_ids in
    let end = rpl_header_size + length page_ids * 8 in clear buf end (content_end cfg - end)

-- `EncodeRPLSegment`
unfoldable pub encode_rpl_segment : Bytes → Config → ℕ → ℕ → List ℕ → Option Bytes
unfolding write_segment entries_per_segment must_validate
encode_rpl_segment buf cfg txn_id older_segment page_ids = must_validate cfg (
    if ltb (length buf) cfg.page_size
    then none
    else if ltb (entries_per_segment cfg) (length page_ids)
    then none
    else some (write_segment buf cfg txn_id older_segment page_ids))
