-- ===== src/PktIds/Overflow.antt =====
-- The identifier 65535.
use ruq.Base.{
  ℕ, ◌+◌, ◌^◌, ◌<◌, ◌≡◌, refl, Bool, true, some, List, [], ◌∷◌, arith, get_elem?, get_elem?-set_ne,
  set, panic,
}
use ruq.PktIds.{Node, vacant, PktIds, is_vacant, next_id, next_id_at}
use ruq.PktIds.Chain.{Cell, Chain, has, HeadAt, Holds}
use ruq.PktIds.Next.{take_head_overflow, taken_ne_zero}

Chain-low :
    (ranges : List Node) (max lo : ℕ) (cs : List Cell)
    → max < 2 ^ 16
    → Chain ranges max lo cs
    → lo < 2 ^ 16
Chain-low ranges max lo [] word h = absurd h
Chain-low ranges max lo ((p, a, b) ∷ []) word (_, la, _, small, _) = omega arith
Chain-low ranges max lo ((p, a, b) ∷ x ∷ cs) word (_, la, ab, bm, _, _) = omega arith

last_cells :
    (s : PktIds) (free : ℕ → Bool) (cs : List Cell)
    → get_elem? s.ranges 0 ≡ some vacant
    → HeadAt cs s.start
    → Chain s.ranges 65535 1 cs
    → ((j : ℕ) → has j cs ≡ free j)
    → ((j : ℕ) → free j ≡ true → j ≡ 65535)
    → next_id s ≡ panic
unfolding next_id next_id_at
last_cells s free [] z head h shows only = absurd h
last_cells s free ((p, a, b) ∷ []) z head h shows only =
    let last : a ≡ 65535 = only a (ground (arith, shows a, h.1, h.2, h.3)) in
    let gone : is_vacant (get_elem? (set s.ranges p vacant) 0) ≡ true =
      rw (get_elem?-set_ne s.ranges p 0 vacant (taken_ne_zero s.ranges p z h.0), z) refl in
    rw (head, h.0) (take_head_overflow p a b 0 s.ranges (omega (arith, h.2)) (omega arith) gone)
last_cells s free ((p, a, b) ∷ (q, c, d) ∷ cs) z head h shows only =
    let last : a ≡ 65535 = only a (ground (arith, shows a, h.1, h.2)) in
    absurd (omega (arith, h.2, Chain-low s.ranges 65535 (b + 1) ((q, c, d) ∷ cs) (omega arith) h.5))

-- With the bound of `PktIds::new` the identifier 65535 is never handed out: where no other is free,
-- `next_id` panics, since the start of the range is raised past a u16.
pub next_id_overflows :
    (s : PktIds) (free : ℕ → Bool)
    → Holds 65535 free s
    → ((j : ℕ) → free j ≡ true → j ≡ 65535)
    → next_id s ≡ panic
next_id_overflows s free h only = last_cells s free h.cells h.sentinel h.head h.chain h.shows only
