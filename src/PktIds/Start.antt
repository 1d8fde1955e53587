-- ===== src/PktIds/Start.antt =====
-- The state that `new_with_max` builds.
use ruq.Base.{ℕ, ◌^◌, ◌≤◌, ◌<◌, refl, Bool, ◌&&◌, [], ◌∷◌, arith, leb}
use ruq.PktIds.{new_with_max}
use ruq.PktIds.Chain.{Holds}

-- The identifiers from 1 to `max`.
abbrev pub up_to : ℕ → ℕ → Bool
up_to max id = leb 1 id && leb id max

-- With a bound from 1 to 65535, a fresh allocator holds exactly the identifiers from 1 to the bound.
pub new_with_max-Holds :
    (max : ℕ) → 1 ≤ max → max < 2 ^ 16 → Holds max (up_to max) (new_with_max max)
unfolding new_with_max
new_with_max-Holds max pos word = record {
  cells = (1, 1, max) ∷ [];
  bound = word;
  sentinel = refl;
  head = refl;
  chain = (refl, omega arith, refl, omega arith, omega arith);
  shows = λ id. ground arith;
}
