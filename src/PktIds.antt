-- ===== src/PktIds.antt =====
-- src/pktids.rs: the free packet identifiers, as a linked list of ranges in a vector. Slot 0 is
-- never taken, and a `next` of 0 ends the list.
pub mod Chain
pub mod Next
pub mod Insert
pub mod Walk
pub mod Return
pub mod Start
pub mod Overflow
pub mod Reference
use ruq.Base.{
  ℕ, zero, suc, ◌+◌, ◌-◌, ◌^◌, ◌<◌, Bool, true, false, Option, none, some, List, [], ◌∷◌, ◌++◌,
  length, get_elem?, set, ltb, leb, ◌==◌, if◌then◌else◌, Outcome, ok, panic, out_of_fuel, ◌>>=◌,
  checked_add, checked_sub, slice_from,
}

-- `Taken { range: start..=end, next }`.
pub data Node : Type 0 where
  vacant : Node
  taken : (start end next : ℕ) → Node

pub record PktIds : Type 0 where
  pub start : ℕ
  pub ranges : List Node

-- Nothing here returns an error: a call answers or panics.
abbrev pub Run : Type 0 → Type 0
Run A = Outcome ⊥ A

-- `PktIds::new_with_max`, and `PktIds::new`, whose bound is `u16::MAX`.
unfoldable pub new_with_max : ℕ → PktIds
new_with_max max = record { start = 1; ranges = vacant ∷ taken 1 max 0 ∷ [] }

unfoldable pub new : PktIds
unfolding new_with_max
new = new_with_max 65535

-- `Some(Node::Vacant)`.
abbrev pub is_vacant : Option Node → Bool
is_vacant (some vacant) = true
is_vacant _ = false

-- `PktId::new(pktid)`: there is no identifier 0.
abbrev pub nonzero : ℕ → Option ℕ
nonzero id = if id == 0 then none else some id

-- The head node is `start..=end`. The slot of the head holds `Vacant` while `next` is looked up;
-- then the head is put back, or left vacant.
pub take_head : (self start end next : ℕ) → List Node → Run (Option ℕ × PktIds)
take_head self start end next ranges =
    let gone = set ranges self vacant in
    if leb end start
    then if is_vacant (get_elem? gone next)
      then (do
        start' ← checked_add 16 start 1
        let head = taken start' end next
        let pktid = if start == end then nonzero start else none
        ok (pktid, record { start = self; ranges = set gone self head }))
      else ok (nonzero start, record { start = next; ranges = gone })
    else (do
      start' ← checked_add 16 start 1
      ok (nonzero start, record { start = self; ranges = set gone self (taken start' end next) }))

next_id_at : PktIds → Option Node → Run (Option ℕ × PktIds)
next_id_at s none = ok (none, s)
next_id_at s (some vacant) = ok (none, s)
next_id_at s (some (taken start end next)) = take_head s.start start end next s.ranges

-- `PktIds::next_id`.
unfoldable pub next_id : PktIds → Run (Option ℕ × PktIds)
unfolding take_head next_id_at
next_id s = next_id_at s (get_elem? s.ranges s.start)

-- The `while let` of `return_id`: the last node that starts at `id` or below, and the one behind.
-- `look` is the node at `next_idx`.
pub walk : (fuel : ℕ) → List Node → ℕ → Option ℕ → ℕ → Run (Option ℕ × ℕ)
walk zero ranges id prev_idx next_idx = out_of_fuel
walk (suc fuel) ranges id prev_idx next_idx = elim (get_elem? ranges next_idx) [
  | some (taken start end next) ↦
      let further = walk fuel ranges id (some next_idx) next in
      if ltb id start then ok (prev_idx, next_idx) else further
  | _ ↦ ok (prev_idx, next_idx)
]

extend_next_at : ℕ → ℕ → List Node → Option Node → Run (Bool × List Node)
extend_next_at at id ranges none = panic
extend_next_at at id ranges (some vacant) = ok (false, ranges)
extend_next_at at id ranges (some (taken start end next)) = do
  below ← checked_sub start 1
  ok (if below == id then (true, set ranges at (taken id end next)) else (false, ranges))

-- `maybe_extend_next_node`; the vector comes back with the answer.
unfoldable pub maybe_extend_next_node : ℕ → ℕ → List Node → Run (Bool × List Node)
unfolding extend_next_at
maybe_extend_next_node next_node id ranges =
    extend_next_at next_node id ranges (get_elem? ranges next_node)

extend_prev_at : ℕ → ℕ → List Node → Option Node → Run (Bool × List Node)
extend_prev_at at id ranges none = panic
extend_prev_at at id ranges (some vacant) = ok (false, ranges)
extend_prev_at at id ranges (some (taken start end next)) = do
  above ← checked_add 16 end 1
  ok (if above == id then (true, set ranges at (taken start id next)) else (false, ranges))

-- `maybe_extend_prev_node`.
unfoldable pub maybe_extend_prev_node : ℕ → ℕ → List Node → Run (Bool × List Node)
unfolding extend_prev_at
maybe_extend_prev_node prev_node id ranges =
    extend_prev_at prev_node id ranges (get_elem? ranges prev_node)

-- `.position(|node| matches!(node, Node::Vacant))`, counted from `at`.
position_vacant : ℕ → List Node → Option ℕ
position_vacant at [] = none
position_vacant at (vacant ∷ nodes) = some at
position_vacant at (taken start end next ∷ nodes) = position_vacant (at + 1) nodes

slot_or_push : List Node → Option ℕ → ℕ × List Node
slot_or_push ranges (some at) = (at, ranges)
slot_or_push ranges none = (length ranges, ranges ++ (vacant ∷ []))

-- A vacant slot behind slot 0, found or pushed.
unfoldable pub vacant_slot : List Node → Run (ℕ × List Node)
unfolding position_vacant slot_or_push
vacant_slot ranges = do
  behind_zero ← slice_from ranges 1
  ok (slot_or_push ranges (position_vacant 1 behind_zero))

relink_at : ℕ → ℕ → List Node → Option Node → Run (List Node)
relink_at at target ranges (some (taken start end next)) =
    ok (set ranges at (taken start end target))
relink_at at target ranges _ = panic

-- `prev.next = vacant_idx`; anything but a taken node is `unreachable!`.
unfoldable pub relink : ℕ → ℕ → List Node → Run (List Node)
unfolding relink_at
relink prev_idx target ranges = relink_at prev_idx target ranges (get_elem? ranges prev_idx)

-- The new node, with what the rest of the arm does to the vector.
pub return_behind : PktIds → ℕ → Option ℕ → ℕ → Run PktIds
return_behind s id none next_idx = do
  (done, ranges) ← maybe_extend_next_node next_idx id s.ranges
  if done then ok (record s { ranges = ranges }) else do
    (vacant_idx, ranges') ← vacant_slot ranges
    ok (record { start = vacant_idx; ranges = set ranges' vacant_idx (taken id id s.start) })
return_behind s id (some prev_idx) next_idx = do
  (done, ranges) ← maybe_extend_prev_node prev_idx id s.ranges
  if done then ok (record s { ranges = ranges }) else do
    (done', ranges') ← maybe_extend_next_node next_idx id ranges
    if done' then ok (record s { ranges = ranges' }) else do
      (vacant_idx, ranges'') ← vacant_slot ranges'
      linked ← relink prev_idx vacant_idx (set ranges'' vacant_idx (taken id id next_idx))
      ok (record s { ranges = linked })

-- The ranges are disjoint and none but the last is empty, so there are at most 2 ^ 16 of them.
abbrev pub walk_fuel : ℕ
walk_fuel = 65537

-- `PktIds::return_id`.
unfoldable pub return_id : ℕ → PktIds → Run PktIds
unfolding walk return_behind
return_id id s = do
  (prev_idx, next_idx) ← walk walk_fuel s.ranges id none s.start
  return_behind s id prev_idx next_idx
