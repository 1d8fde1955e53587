-- ===== src/PktIds/Chain.antt =====
-- The linked list of src/pktids.rs as a list of cells, and the set of identifiers that it holds.
use ruq.Base.{
  ℕ, ◌+◌, ◌^◌, ◌≤◌, ◌<◌, ◌≡◌, ◌∙◌, ◌≢◌, Bool, true, false, ◌&&◌, ◌||◌, some, List, [], ◌∷◌, arith,
  length, get_elem?, set, leb, get_elem?-set_ne,
}
use ruq.PktIds.{Node, vacant, taken, PktIds}

-- Slot, first and last identifier of a node.
abbrev pub Cell : Type 0
Cell = ℕ × ℕ × ℕ

abbrev pub Apart : ℕ → List Cell → Type 0
Apart i [] = Unit
Apart i ((p, _, _) ∷ cs) = (i ≢ p) × Apart i cs

-- From its first cell on the list runs through these cells. They start at `lo` or above, ascend
-- without overlap, and end at `max`; only the last may be empty, which is how the code marks that
-- no identifier is left in it.
abbrev pub Chain : List Node → ℕ → ℕ → List Cell → Type 0
Chain ranges max lo [] = ⊥
Chain ranges max lo ((p, a, b) ∷ []) =
    (get_elem? ranges p ≡ some (taken a b 0)) × (lo ≤ a) × (b ≡ max) × (a < 2 ^ 16) × (lo ≤ max + 1)
Chain ranges max lo ((p, a, b) ∷ (q, c, d) ∷ cs) =
    (get_elem? ranges p ≡ some (taken a b q))
    × (lo ≤ a)
    × (a ≤ b)
    × (b ≤ max)
    × Apart p ((q, c, d) ∷ cs)
    × Chain ranges max (b + 1) ((q, c, d) ∷ cs)

-- Some cell holds the identifier.
abbrev pub has : ℕ → List Cell → Bool
has id [] = false
has id ((_, a, b) ∷ cs) = (leb a id && leb id b) || has id cs

abbrev pub HeadAt : List Cell → ℕ → Type 0
HeadAt [] i = ⊥
HeadAt ((p, _, _) ∷ cs) i = i ≡ p

-- The invariant: `s` holds exactly the identifiers of `free`, all from 1 to `max`.
pub record Holds (max : ℕ) (free : ℕ → Bool) (s : PktIds) : Type 0 where
  pub cells : List Cell
  pub bound : max < 2 ^ 16
  pub sentinel : get_elem? s.ranges 0 ≡ some vacant
  pub head : HeadAt cells s.start
  pub chain : Chain s.ranges max 1 cells
  pub shows : (id : ℕ) → has id cells ≡ free id

-- A slot that is not taken is none of the list's.
pub Apart-of_free :
    (ranges : List Node) (max lo : ℕ) (cs : List Cell) (i : ℕ)
    → get_elem? ranges i ≡ some vacant
    → Chain ranges max lo cs
    → Apart i cs
Apart-of_free ranges max lo [] i e h = tt
Apart-of_free ranges max lo ((p, a, b) ∷ []) i e (at, _, _, _, _) = (λ q. cc (rw q at e), tt)
Apart-of_free ranges max lo ((p, a, b) ∷ (q, c, d) ∷ cs) i e (at, _, _, _, _, rest) =
    (λ w. cc (rw w at e), Apart-of_free ranges max (b + 1) ((q, c, d) ∷ cs) i e rest)

-- Two vectors hold the same at the slots of the cells.
abbrev pub Agree : List Node → List Node → List Cell → Type 0
Agree old new [] = Unit
Agree old new ((p, _, _) ∷ cs) = (get_elem? new p ≡ get_elem? old p) × Agree old new cs

pub Chain-Agree :
    (old new : List Node) (max lo : ℕ) (cs : List Cell)
    → Agree old new cs
    → Chain old max lo cs
    → Chain new max lo cs
Chain-Agree old new max lo [] g h = h
Chain-Agree old new max lo ((p, a, b) ∷ []) (same, _) (at, la, bm, small, le) =
    (same ∙ at, la, bm, small, le)
Chain-Agree old new max lo ((p, a, b) ∷ (q, c, d) ∷ cs) (same, g) (at, la, ab, bm, apart, rest) =
    (same ∙ at, la, ab, bm, apart, Chain-Agree old new max (b + 1) ((q, c, d) ∷ cs) g rest)

-- A write at a slot of no cell.
pub Agree-set :
    (ranges : List Node) (i : ℕ) (v : Node) (cs : List Cell)
    → Apart i cs
    → Agree ranges (set ranges i v) cs
Agree-set ranges i v [] h = tt
Agree-set ranges i v ((p, _, _) ∷ cs) (ne, h) =
    (get_elem?-set_ne ranges i p v ne, Agree-set ranges i v cs h)

-- Every cell that is not last holds an identifier of its own.
pub length-Chain :
    (ranges : List Node) (max lo : ℕ) (cs : List Cell)
    → Chain ranges max lo cs
    → length cs + lo ≤ max + 2
length-Chain ranges max lo [] h = absurd h
length-Chain ranges max lo ((p, a, b) ∷ []) (_, _, _, _, le) = omega arith
length-Chain ranges max lo ((p, a, b) ∷ (q, c, d) ∷ cs) (_, la, ab, _, _, rest) =
    omega (arith, length-Chain ranges max (b + 1) ((q, c, d) ∷ cs) rest)

-- All identifiers of the cells lie from `lo` to `max`.
pub has_bounds :
    (ranges : List Node) (max lo id : ℕ) (cs : List Cell)
    → Chain ranges max lo cs
    → has id cs ≡ true
    → (lo ≤ id) × (id ≤ max)
has_bounds ranges max lo id [] h e = absurd h
has_bounds ranges max lo id ((p, a, b) ∷ []) (_, la, bm, _, _) e = ground arith
has_bounds ranges max lo id ((p, a, b) ∷ (q, c, d) ∷ cs) (_, la, ab, bm, _, rest) e =
    ground (arith, has_bounds ranges max (b + 1) id ((q, c, d) ∷ cs) rest)

pub Chain-weaken :
    (ranges : List Node) (max lo lo' : ℕ) (cs : List Cell)
    → lo ≤ lo'
    → Chain ranges max lo' cs
    → Chain ranges max lo cs
Chain-weaken ranges max lo lo' [] le h = h
Chain-weaken ranges max lo lo' ((p, a, b) ∷ []) le (at, la, bm, small, top) =
    (at, omega arith, bm, small, omega arith)
Chain-weaken ranges max lo lo' ((p, a, b) ∷ (q, c, d) ∷ cs) le (at, la, ab, bm, apart, rest) =
    (at, omega arith, ab, bm, apart, rest)

-- The first cell is a taken slot.
pub Chain-head :
    (ranges : List Node) (max lo p a b : ℕ) (cs : List Cell)
    → Chain ranges max lo ((p, a, b) ∷ cs)
    → (n : ℕ) × (get_elem? ranges p ≡ some (taken a b n))
Chain-head ranges max lo p a b [] (at, _, _, _, _) = (0, at)
Chain-head ranges max lo p a b ((q, c, d) ∷ cs) (at, _, _, _, _, _) = (q, at)
