-- ===== src/PktIds/Return/Parts.antt =====
-- What the arms of `return_id` share.
use ruq.Base.{
  ℕ, ◌≡◌, refl, ◌∙◌, Bool, true, ◌||◌, some, List, [], ◌∷◌, ◌++◌, arith, get_elem?, set, ◌==◌, ok,
  if◌then◌else◌, get_elem?-set_ne,
}
use ruq.PktIds.{Node, vacant, taken, PktIds, Run}
use ruq.PktIds.Chain.{Cell, has, HeadAt, Holds}

abbrev pub with_id : (ℕ → Bool) → ℕ → ℕ → Bool
with_id free id j = if j == id then true else free j

pub has-append : (j : ℕ) (xs ys : List Cell) → has j (xs ++ ys) ≡ (has j xs || has j ys)
has-append j [] ys = refl
has-append j ((p, a, b) ∷ xs) ys = ground (arith, has-append j xs ys)

pub head_same :
    (xs : List Cell) (p a b a' b' i : ℕ) (cs cs' : List Cell)
    → HeadAt (xs ++ ((p, a, b) ∷ cs)) i
    → HeadAt (xs ++ ((p, a', b') ∷ cs')) i
head_same [] p a b a' b' i cs cs' h = h
head_same (x ∷ xs) p a b a' b' i cs cs' h = h

-- The call comes back, and `id` is added to the free identifiers.
abbrev pub Restored : ℕ → (ℕ → Bool) → ℕ → Run PktIds → Type 0
Restored max free id r = (s' : PktIds) × (r ≡ ok s') × Holds max (with_id free id) s'

-- Slot 0 is not written.
pub zero_kept :
    (old : List Node) (i a b n : ℕ) (new : Node)
    → get_elem? old 0 ≡ some vacant
    → get_elem? old i ≡ some (taken a b n)
    → get_elem? (set old i new) 0 ≡ some vacant
zero_kept old i a b n new first at = get_elem?-set_ne old i 0 new (λ e. cc (rw e at at)) ∙ first
