-- ===== src/Pager/Rpl/Walk/Chain.antt =====
-- What a walk has seen (internal/pager/rplwalk.go, Walk and readRPLSegment).
use gmdb.Common.{
  ℕ, zero, suc, ◌+◌, ◌^◌, ◌≤◌, ◌<◌, List, [], ◌∷◌, false, not, Bool, Bytes, none, some, ltb, ◌==◌,
  ◌≡◌, ◌≢◌, arith, if_split, length, ok, ap, refl,
}
use gmdb.Page
use gmdb.Page.Config.{Config, valid_page_size, must_validate}
use gmdb.Page.Header.{verify_page_footer, compute_page_checksum, read_header}
use gmdb.Pager.Rpl.Segment.{RplSegment, decode_rpl_segment}
use gmdb.Pager.Rpl.Walk.{
  ChainWalk, StopReason, tail_reached, reclaimed_boundary, footer_boundary, decode_boundary,
  caller_stopped, Outcome, stopped, failed, panicked, out_of_fuel, Loop, Turn, done, again, turn,
  after_visit, walk_loop, walk, first, fail, stop, resume, seen, decoded, read_rpl_segment,
  decode_page,
}
use gmdb.Pager.Rpl.Walk.Cases.{Checked, turn_cases}
use gmdb.Pager.Rpl.Walk.Ends.{walk_ends}

abbrev pub Trail : Type 0
Trail = List (ℕ × RplSegment)

abbrev pub ids : Trail → List ℕ
ids [] = []
ids ((id, seg) ∷ trail) = id ∷ ids trail

-- The visitor that keeps what it sees, newest last visit first, and goes on as `go` says.
abbrev pub keep : (ℕ → RplSegment → Bool) → Trail → ℕ → RplSegment → Trail × Bool
keep go trail id seg = ((id, seg) ∷ trail, go id seg)

-- A segment follows the one visited before it, or stands at the head: it is the older segment that the
-- one before names, which is not the tail, and its transaction is no newer.
abbrev pub Follows : ChainWalk → Trail → ℕ → ℕ → Type 0
Follows w [] id txn_id = (id ≡ w.head) × (txn_id ≤ w.head_txn_id)
Follows w ((before, seg) ∷ trail) id txn_id =
    (id ≡ seg.older_segment) × (txn_id ≤ seg.txn_id) × (before ≢ w.tail)

-- Every segment visited lies within the bounds, was not visited before, was read as that segment with
-- its footer verified, and follows the one visited before it.
abbrev pub Chain : (Bytes → ℕ) → ChainWalk → Trail → Type 0
Chain hash w [] = Unit
Chain hash w ((id, seg) ∷ trail) =
    (w.low_bound ≤ id)
    × (id < w.high_bound)
    × (seen (ids trail) id ≡ false)
    × (read_rpl_segment hash w.read_page w.cfg id ≡ some (decoded seg))
    × Follows w trail id seg.txn_id
    × Chain hash w trail

-- Where the walk says that it reached the tail, the last segment visited is the tail, or there is no
-- chain.
abbrev pub AtTail : ChainWalk → StopReason → Trail → Type 0
AtTail w tail_reached [] = w.head ≡ 0
AtTail w tail_reached ((id, seg) ∷ trail) = id ≡ w.tail
AtTail w reclaimed_boundary trail = Unit
AtTail w footer_boundary trail = Unit
AtTail w decode_boundary trail = Unit
AtTail w caller_stopped trail = Unit

abbrev pub Walked : (Bytes → ℕ) → ChainWalk → Outcome Trail → Type 0
Walked hash w (stopped s trail) = Chain hash w trail × AtTail w s.reason trail
Walked hash w (failed e trail) = Chain hash w trail
Walked hash w panicked = ⊥
Walked hash w out_of_fuel = ⊥

Follows-earlier :
    (w : ChainWalk) (trail : Trail) (id : ℕ) {a b : ℕ}
    → a ≤ b
    → Follows w trail id b
    → Follows w trail id a
Follows-earlier w [] id h (e, k) = (e, omega arith)
Follows-earlier w ((before, seg) ∷ trail) id h (e, k, ne) = (e, omega arith, ne)

AtTail-other :
    (w : ChainWalk) (reason : StopReason) (trail : Trail)
    → reason ≢ tail_reached
    → AtTail w reason trail
AtTail-other w tail_reached trail ne = absurd (ne refl)
AtTail-other w reclaimed_boundary trail ne = tt
AtTail-other w footer_boundary trail ne = tt
AtTail-other w decode_boundary trail ne = tt
AtTail-other w caller_stopped trail ne = tt

module _ (hash : Bytes → ℕ) (w : ChainWalk) (go : ℕ → RplSegment → Bool)
    (reads : (id : ℕ) → read_rpl_segment hash w.read_page w.cfg id ≢ none) where
  record Going (l : Loop Trail) : Type 0 where
    trail_ids : l.visited ≡ ids l.state
    chain : Chain hash w l.state
    next : Follows w l.state l.id l.prev_txn_id

  abbrev Kept : Turn Trail → Type 0
  Kept (done o) = Walked hash w o
  Kept (again l) = Going l

  visited_chain :
      (l : Loop Trail) (seg : RplSegment)
      → Going l
      → Checked hash w (keep go) l seg
      → Chain hash w ((l.id, seg) ∷ l.state)
  visited_chain l seg g c = (
    c.above,
    c.below,
    rw g.trail_ids at c.fresh,
    c.read,
    Follows-earlier w l.state l.id c.ordered g.next,
    g.chain,
  )

  after_visit-Kept :
      (l : Loop Trail) (seg : RplSegment)
      → Going l
      → Checked hash w (keep go) l seg
      → Kept (after_visit hash w (keep go) l seg (keep go l.state l.id seg))
  unfolding after_visit fail stop
  after_visit-Kept l seg g c =
      let chain = visited_chain l seg g c in
      if_split Kept (not (go l.id seg)) (λ _. (chain, tt))
        (λ _.
          if_split Kept (l.id == w.tail) (λ t. (chain, ground arith))
            (λ t.
              if_split Kept (seg.older_segment == 0) (λ _. chain)
                (λ _. record {
                  trail_ids = ap (λ (t : List ℕ). l.id ∷ t) g.trail_ids;
                  chain = chain;
                  next = (refl, omega arith, ground arith);
                })))

  turn-Kept : (l : Loop Trail) → Going l → Kept (turn hash w (keep go) l)
  unfolding fail stop
  turn-Kept l g =
      turn_cases hash w (keep go) Kept l (λ kind bound. g.chain)
        (λ reason ne. (g.chain, AtTail-other w reason l.state ne)) (λ e. reads l.id e)
        (λ seg c. after_visit-Kept l seg g c)

  resume-Walked :
      (next : Loop Trail → Outcome Trail) (t : Turn Trail)
      → Kept t
      → ((l : Loop Trail) → Going l → next l ≢ out_of_fuel → Walked hash w (next l))
      → resume hash w (keep go) next t ≢ out_of_fuel
      → Walked hash w (resume hash w (keep go) next t)
  unfolding resume
  resume-Walked next (done o) k h ne = k
  resume-Walked next (again l) k h ne = h l k ne

  walk_loop-Walked :
      (fuel : ℕ) (l : Loop Trail)
      → Going l
      → walk_loop hash w (keep go) fuel l ≢ out_of_fuel
      → Walked hash w (walk_loop hash w (keep go) fuel l)
  unfolding walk_loop
  walk_loop-Walked zero l g ne = absurd (ne refl)
  walk_loop-Walked (suc fuel) l g ne =
      resume-Walked (walk_loop hash w (keep go) fuel) (turn hash w (keep go) l) (turn-Kept l g)
        (λ next. walk_loop-Walked fuel next) ne

  walk-Walked : walk hash w (keep go) [] ≢ out_of_fuel → Walked hash w (walk hash w (keep go) [])
  unfolding walk first
  walk-Walked =
      if_split (λ (o : Outcome Trail). o ≢ out_of_fuel → Walked hash w o) (w.head == 0)
        (λ z _. (tt, ground arith))
        (λ _.
          if_split (λ (o : Outcome Trail). o ≢ out_of_fuel → Walked hash w o) (w.tail == 0)
            (λ _ _. tt)
            (λ _.
              walk_loop-Walked (w.entry_count + 3) (first hash w (keep go) [])
                (record { trail_ids = refl; chain = tt; next = (refl, omega arith) })))

page_room : (cfg : Config) → Page.Config.validate cfg ≡ ok tt → 8 ≤ cfg.page_size
unfolding Page.Config.validate valid_page_size
page_room cfg v = ground arith

decode_page-ne-none :
    (buf : Bytes) (cfg : Config)
    → Page.Config.validate cfg ≡ ok tt
    → length buf ≡ cfg.page_size
    → decode_page buf cfg ≢ none
unfolding decode_page decode_rpl_segment must_validate read_header
decode_page-ne-none buf cfg v size =
    let room = page_room cfg v in
    let header : ltb (length buf) 8 ≡ false = ground arith in
    let whole : ltb (length buf) cfg.page_size ≡ false = ground arith in ground arith

-- Pages of the configured size are read without a panic.
read-ne-none :
    (hash : Bytes → ℕ) (read_page : ℕ → Bytes) (cfg : Config) (id : ℕ)
    → Page.Config.validate cfg ≡ ok tt
    → length (read_page id) ≡ cfg.page_size
    → read_rpl_segment hash read_page cfg id ≢ none
unfolding read_rpl_segment verify_page_footer compute_page_checksum
read-ne-none hash read_page cfg id v size =
    let room = page_room cfg v in
    let read = decode_page-ne-none (read_page id) cfg v size in ground arith

-- For a valid configuration, pages of its size and an entry count of the head to which 2 can be added in
-- 64 bits (entry_count + 2 < 2 ^ 64), Walk ends without a panic. What it has then visited,
-- whatever stopped it, is a chain from the head: every segment within the bounds, none twice, each read
-- with its footer verified, each the older segment that the one before it names and of no newer
-- transaction. Where it reports the tail, the last segment visited is the tail, or the head is 0.
pub walk_chain :
    (hash : Bytes → ℕ) (w : ChainWalk) (go : ℕ → RplSegment → Bool)
    → Page.Config.validate w.cfg ≡ ok tt
    → ((id : ℕ) → length (w.read_page id) ≡ w.cfg.page_size)
    → w.entry_count + 2 < 2 ^ 64
    → Walked hash w (walk hash w (keep go) [])
walk_chain hash w go v size small =
    walk-Walked hash w go (λ id. read-ne-none hash w.read_page w.cfg id v (size id))
      (walk_ends hash w (keep go) small [])
