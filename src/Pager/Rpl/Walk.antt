-- ===== src/Pager/Rpl/Walk.antt =====
-- internal/pager/rplwalk.go: the walk of the on-disk chain from the head to the tail. The visitor is a
-- state `A` and a function that returns the next one and whether to go on.
mod Cases
pub mod Ends
pub mod Chain
use gmdb.Common.{
  ℕ, zero, suc, ◌+◌, ◌%◌, ◌^◌, List, [], ◌∷◌, Bool, true, false, not, ◌&&◌, ◌||◌, Bytes, Option,
  none, some, ltb, leb, ◌==◌, if◌then◌else◌,
}
use gmdb.Page.Config.{Config}
use gmdb.Page.Header.{verify_page_footer}
use gmdb.Pager.Rpl.Segment.{RplSegment, decode_rpl_segment}

-- `RPLWalkStopReason`, without the zero value that stands beside an error.
pub data StopReason : Type 0 where
  tail_reached reclaimed_boundary footer_boundary decode_boundary caller_stopped : StopReason

-- `RPLWalkStop`
pub record Stop : Type 0 where
  pub reason : StopReason
  pub page_id : ℕ

-- `RPLWalkErrKind`
pub data ErrorKind : Type 0 where
  tail_missing segment_out_of_range segment_in_meta_region chain_cycle : ErrorKind
  chain_too_long head_checksum head_malformed ended_before_tail : ErrorKind

-- `RPLWalkError`
pub record WalkError : Type 0 where
  pub kind : ErrorKind
  pub page_id : ℕ
  pub head : ℕ
  pub tail : ℕ
  pub bound : ℕ

-- `RPLChainWalk`; the oracle's results are the freedom of the page and the oracle's availability.
pub record ChainWalk : Type 0 where
  pub read_page : ℕ → Bytes
  pub cfg : Config
  pub head : ℕ
  pub head_txn_id : ℕ
  pub tail : ℕ
  pub entry_count : ℕ
  pub reclaim_epoch : ℕ
  pub low_bound : ℕ
  pub high_bound : ℕ
  pub is_free : Option (ℕ → Bool × Bool)

-- The results of `readRPLSegment`: footerOK is false, ok is false, or a segment.
pub data SegmentRead : Type 0 where
  bad_footer : SegmentRead
  not_decoded : SegmentRead
  decoded : RplSegment → SegmentRead

decoded_or_not : Option RplSegment → SegmentRead
decoded_or_not none = not_decoded
decoded_or_not (some seg) = decoded seg

-- `readRPLSegment` behind the footer check.
decode_page : Bytes → Config → Option SegmentRead
unfolding decoded_or_not
decode_page buf cfg = elim (decode_rpl_segment buf cfg) [
  | none ↦ none
  | some seg ↦ some (decoded_or_not seg)
]

-- `readRPLSegment`; `none` is a panic.
unfoldable pub read_rpl_segment : (Bytes → ℕ) → (ℕ → Bytes) → Config → ℕ → Option SegmentRead
unfolding decode_page
read_rpl_segment hash read_page cfg id =
    let buf = read_page id in
    if cfg.page_checksum
    then elim (verify_page_footer hash buf cfg.page_size) [
      | none ↦ none
      | some true ↦ decode_page buf cfg
      | some false ↦ some bad_footer
    ]
    else decode_page buf cfg

-- How a walk ends, with the visitor's last state.
pub data Outcome {ℓ} (A : Type ℓ) : Type ℓ where
  stopped : Stop → A → Outcome A
  failed : WalkError → A → Outcome A
  panicked : Outcome A
  out_of_fuel : Outcome A

-- The local variables of the loop, and the visitor's state.
pub record Loop {ℓ} (A : Type ℓ) : Type ℓ where
  pub visited : List ℕ
  pub segs : ℕ
  pub id : ℕ
  pub prev_txn_id : ℕ
  pub state : A

-- One turn of the loop: its end, or the next turn.
pub data Turn {ℓ} (A : Type ℓ) : Type ℓ where
  done : Outcome A → Turn A
  again : Loop A → Turn A

-- `_, seen := visited[id]`
pub seen : List ℕ → ℕ → Bool
seen [] id = false
seen (v ∷ visited) id = v == id || seen visited id

-- `w.IsFree != nil`, and its answer is that the page is free.
says_free : Option (ℕ → Bool × Bool) → ℕ → Bool
says_free none id = false
says_free (some oracle) id = let (free, available) = oracle id in available && free

module _ {ℓ} {A : Type ℓ} (hash : Bytes → ℕ) (w : ChainWalk)
    (visit : A → ℕ → RplSegment → A × Bool) where
  pub max_segs : ℕ
  max_segs = (w.entry_count + 1) % 2 ^ 64

  pub head_exempt : Bool
  head_exempt = leb w.reclaim_epoch w.head_txn_id

  pub fail : ErrorKind → ℕ → ℕ → A → Turn A
  fail kind id bound state = done (
      failed (record { kind = kind; page_id = id; head = w.head; tail = w.tail; bound = bound })
        state)

  pub stop : StopReason → ℕ → A → Turn A
  stop reason id state = done (stopped (record { reason = reason; page_id = id }) state)

  -- The turn from the visit on.
  pub after_visit : Loop A → RplSegment → A × Bool → Turn A
  unfolding fail stop
  after_visit l seg (state, go) =
      if not go
      then stop caller_stopped l.id state
      else if l.id == w.tail
      then stop tail_reached l.id state
      else if seg.older_segment == 0
      then fail ended_before_tail l.id 0 state
      else again (record {
        visited = l.id ∷ l.visited;
        segs = (l.segs + 1) % 2 ^ 64;
        id = seg.older_segment;
        prev_txn_id = seg.txn_id;
        state = state;
      })

  -- The turn from the authenticity check on, where the segment decodes.
  visit_segment : Loop A → RplSegment → Turn A
  unfolding stop after_visit
  visit_segment l seg =
      if ltb l.prev_txn_id seg.txn_id
      then stop reclaimed_boundary l.id l.state
      else after_visit l seg (visit l.state l.id seg)

  -- The turn behind the read of the segment page.
  after_read : Loop A → Option SegmentRead → Turn A
  unfolding fail stop head_exempt visit_segment
  after_read l none = done panicked
  after_read l (some bad_footer) =
      if l.id == w.head && head_exempt
      then fail head_checksum l.id 0 l.state
      else stop footer_boundary l.id l.state
  after_read l (some not_decoded) =
      if l.id == w.head && head_exempt
      then fail head_malformed l.id 0 l.state
      else stop decode_boundary l.id l.state
  after_read l (some (decoded seg)) = visit_segment l seg

  -- One turn of the loop of `Walk`.
  pub turn : Loop A → Turn A
  unfolding fail stop head_exempt max_segs after_read seen says_free
  turn l =
      if leb w.high_bound l.id
      then fail segment_out_of_range l.id w.high_bound l.state
      else if ltb l.id w.low_bound
      then fail segment_in_meta_region l.id w.low_bound l.state
      else if seen l.visited l.id
      then fail chain_cycle l.id 0 l.state
      else if ltb max_segs l.segs
      then fail chain_too_long l.id max_segs l.state
      else if (not (l.id == w.head) || not head_exempt) && says_free w.is_free l.id
      then stop reclaimed_boundary l.id l.state
      else after_read l (read_rpl_segment hash w.read_page w.cfg l.id)

  pub resume : (Loop A → Outcome A) → Turn A → Outcome A
  resume next (done o) = o
  resume next (again l) = next l

  -- The loop of `Walk`, with fuel.
  pub walk_loop : ℕ → Loop A → Outcome A
  unfolding turn resume
  walk_loop zero l = out_of_fuel
  walk_loop (suc fuel) l = resume (walk_loop fuel) (turn l)

  pub first : A → Loop A
  first state = record {
    visited = [];
    segs = 0;
    id = w.head;
    prev_txn_id = w.head_txn_id;
    state = state;
  }

  -- `Walk`; each turn counts one segment, and the count is bounded.
  pub walk : A → Outcome A
  unfolding walk_loop first
  walk state =
      if w.head == 0
      then stopped (record { reason = tail_reached; page_id = 0 }) state
      else if w.tail == 0
      then failed
          (record { kind = tail_missing; page_id = w.head; head = w.head; tail = 0; bound = 0 })
          state
      else walk_loop (w.entry_count + 3) (first state)
