-- ===== src/PktIds/Return.antt =====
-- `return_id` puts an identifier back.
pub mod Parts
pub mod Local
pub mod Calls
pub mod Front
pub mod Behind
pub use Parts.{with_id}
use ruq.Base.{
  ℕ, zero, suc, ◌+◌, ◌-◌, ◌^◌, ◌≤◌, ◌<◌, ◌≡◌, refl, sym, ap, ◌∙◌, ◌≢◌, ◌⊎◌, inl, inr, Bool, true,
  false, ◌||◌, Option, none, some, List, [], ◌∷◌, ◌++◌, arith, length, get_elem?, set, leb, ◌==◌,
  ok, panic, if◌then◌else◌, get_elem?-set_ne, get_elem?-set_self,
}
use ruq.PktIds.{
  Node, vacant, taken, PktIds, Run, walk, walk_fuel, return_behind, return_id,
  maybe_extend_next_node, maybe_extend_prev_node, vacant_slot, relink,
}
use ruq.PktIds.Chain.{
  Cell, Chain, Chain-head, has, HeadAt, Holds, Apart, Agree, Agree-set, Apart-of_free, has_bounds,
  length-Chain,
}
use ruq.PktIds.Insert.{
  Apart-front, Chain-replace, Chain-back, front-Apart, Agree-trans, Vacancy, vacant_slot-Vacancy,
}
use ruq.PktIds.Return.Local.{
  Chain-raise, Chain-grow, get_set, lower_first, covers, raise_last, lower_second, insert_first,
  insert_second,
}
use ruq.PktIds.Return.Calls.{
  extend_next_hit, extend_next_miss, extend_prev_hit, extend_prev_miss, relink_taken,
}
use ruq.PktIds.Walk.{AtFront, Between, walk-Found}
use native.Mathlib.Decide.{dec_lt, ℕ_discrete}
use ruq.PktIds.Return.Front.{front-Restored}
use ruq.PktIds.Return.Behind.{Between-Restored}

-- In every state that holds the set `free`, `return_id` of an identifier from 1 to `max` that is not
-- free comes back without a panic, and the new state holds the set with the identifier added.
pub return_id-Holds :
    (max : ℕ) (free : ℕ → Bool) (s : PktIds) (id : ℕ)
    → Holds max free s
    → 1 ≤ id
    → id ≤ max
    → free id ≡ false
    → (s' : PktIds) × (return_id id s ≡ ok s') × Holds max (with_id free id) s'
unfolding return_id
return_id-Holds max free s id h pos top out =
    elim (walk-Found s.ranges id max top walk_fuel 1 h.cells none s.start h.chain h.head
      (h.shows id ∙ out) (omega (arith, length-Chain s.ranges max 1 h.cells h.chain, h.bound))) [
        | inl (w, stopped) ↦ rw stopped (front_at w)
        | inr (w, stopped) ↦ rw stopped (
            Between-Restored max free s.ranges h.bound h.sentinel id pos top out s.start h.cells w
              h.head h.chain h.shows)
      ]
  where
    front_at :
        AtFront id h.cells
        → (s' : PktIds) × (return_behind s id none s.start ≡ ok s') × Holds max (with_id free id) s'
    front_at w =
        let same : s.start ≡ w.q = rw w.splits at h.head in
        rw same (
          front-Restored max free s.ranges h.bound h.sentinel id pos top out w.q w.c w.d w.rest
            (rw w.splits at h.chain) (rw w.splits at h.shows) w.below)
