-- ===== src/PktIds/Return/Front.antt =====
-- `return_id` in front of the first range.
use ruq.Base.{
  ℕ, ◌+◌, ◌^◌, ◌≤◌, ◌<◌, ◌≡◌, refl, ◌∙◌, ◌≢◌, Bool, false, none, some, List, ◌∷◌, arith, get_elem?,
  set, get_elem?-set_ne,
}
use ruq.PktIds.{Node, vacant, taken, PktIds, return_behind}
use ruq.PktIds.Chain.{Cell, Chain, Chain-head, has}
use ruq.PktIds.Insert.{vacant_slot-Vacancy}
use ruq.PktIds.Return.Local.{Chain-grow, lower_first, covers, insert_first}
use ruq.PktIds.Return.Calls.{extend_next_hit, extend_next_miss}
use native.Mathlib.Decide.{ℕ_discrete}
use ruq.PktIds.Return.Parts.{Restored, zero_kept}

-- What is known where the search has stopped.
module _ (max : ℕ) (free : ℕ → Bool) (ranges : List Node) (word : max < 2 ^ 16)
    (z : get_elem? ranges 0 ≡ some vacant) (id : ℕ) (pos : 1 ≤ id) (top : id ≤ max)
    (out : free id ≡ false) where
  -- In front of the first cell.
  module _ (q c d : ℕ) (cs : List Cell) (chain : Chain ranges max 1 ((q, c, d) ∷ cs))
      (shows : (j : ℕ) → has j ((q, c, d) ∷ cs) ≡ free j) (below : id < c) where
    abbrev from_q : PktIds
    from_q = record { start = q; ranges = ranges }

    front_hit : id + 1 ≡ c → Restored max free id (return_behind from_q id none q)
    unfolding return_behind
    front_hit next =
        let (n, at) = Chain-head ranges max 1 q c d cs chain in
        let new = set ranges q (taken id d n) in
        (
          record { start = q; ranges = new },
          rw (extend_next_hit ranges q c d n at id next) refl,
          record {
            cells = (q, id, d) ∷ cs;
            bound = word;
            sentinel = zero_kept ranges q c d n (taken id d n) z at;
            head = refl;
            chain = lower_first ranges max id top 1 q c d n cs at pos below word chain;
            shows = λ j. ground (arith, shows j, covers ranges max 1 id q c d cs top below chain);
          },
        )

    front_insert : id + 1 ≢ c → Restored max free id (return_behind from_q id none q)
    unfolding return_behind
    front_insert far =
        let (n, at) = Chain-head ranges max 1 q c d cs chain in
        let (v, grown, found, (ne, is_free, keeps)) = vacant_slot-Vacancy ranges vacant z in
        let new = set grown v (taken id id q) in
        (
          record { start = v; ranges = new },
          rw (extend_next_miss ranges q c d n at id below far) (rw found refl),
          record {
            cells = (v, id, id) ∷ (q, c, d) ∷ cs;
            bound = word;
            sentinel = get_elem?-set_ne grown v 0 (taken id id q) ne ∙ keeps 0 vacant z;
            head = refl;
            chain =
                insert_first grown max id top 1 v q c d cs is_free pos below
                  (Chain-grow ranges grown max 1 ((q, c, d) ∷ cs) keeps chain) 1 pos;
            shows = λ j. ground (arith, shows j);
          },
        )

  -- The whole arm.
  pub front-Restored :
      (q c d : ℕ) (cs : List Cell)
      → Chain ranges max 1 ((q, c, d) ∷ cs)
      → ((j : ℕ) → has j ((q, c, d) ∷ cs) ≡ free j)
      → id < c
      → Restored max free id (return_behind (record { start = q; ranges = ranges }) id none q)
  front-Restored q c d cs chain shows below = elim (ℕ_discrete (id + 1) c) [
    | yes next ↦ front_hit q c d cs chain shows below next
    | no far ↦ front_insert q c d cs chain shows below far
  ]
