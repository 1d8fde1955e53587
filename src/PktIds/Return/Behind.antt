-- ===== src/PktIds/Return/Behind.antt =====
-- `return_id` between two ranges.
use ruq.Base.{
  ℕ, ◌+◌, ◌^◌, ◌≤◌, ◌<◌, ◌≡◌, refl, sym, ◌∙◌, ◌≢◌, Bool, false, some, List, ◌∷◌, ◌++◌, arith,
  get_elem?, set, get_elem?-set_ne,
}
use ruq.PktIds.{Node, vacant, taken, PktIds, return_behind}
use ruq.PktIds.Chain.{Cell, Chain, Chain-head, has, HeadAt, Apart, Agree-set, Apart-of_free}
use ruq.PktIds.Insert.{
  Apart-front, Chain-replace, Chain-back, front-Apart, Agree-trans, vacant_slot-Vacancy,
}
use ruq.PktIds.Return.Local.{Chain-grow, covers, raise_last, lower_second, insert_second}
use ruq.PktIds.Return.Calls.{
  extend_next_hit, extend_next_miss, extend_prev_hit, extend_prev_miss, relink_taken,
}
use ruq.PktIds.Walk.{Between}
use native.Mathlib.Decide.{ℕ_discrete}
use ruq.PktIds.Return.Parts.{Restored, has-append, head_same, zero_kept}

-- What is known where the search has stopped.
module _ (max : ℕ) (free : ℕ → Bool) (ranges : List Node) (word : max < 2 ^ 16)
    (z : get_elem? ranges 0 ≡ some vacant) (id : ℕ) (pos : 1 ≤ id) (top : id ≤ max)
    (out : free id ≡ false) where
  -- Behind the cell of slot `p` and in front of that of slot `q`.
  module _ (start : ℕ) (xs : List Cell) (p a b q c d : ℕ) (cs : List Cell)
      (head : HeadAt (xs ++ ((p, a, b) ∷ (q, c, d) ∷ cs)) start)
      (chain : Chain ranges max 1 (xs ++ ((p, a, b) ∷ (q, c, d) ∷ cs)))
      (shows : (j : ℕ) → has j (xs ++ ((p, a, b) ∷ (q, c, d) ∷ cs)) ≡ free j) (above : b < id)
      (below : id < c) where
    abbrev from_start : PktIds
    from_start = record { start = start; ranges = ranges }

    behind : (lo : ℕ) × Chain ranges max lo ((p, a, b) ∷ (q, c, d) ∷ cs)
    behind = Chain-back ranges max 1 xs (p, a, b) ((q, c, d) ∷ cs) chain

    at_p : get_elem? ranges p ≡ some (taken a b q)
    at_p = behind.1.0

    at_q : (n : ℕ) × (get_elem? ranges q ≡ some (taken c d n))
    at_q = Chain-head ranges max (b + 1) q c d cs behind.1.5

    p-Apart : Apart p xs
    p-Apart = front-Apart ranges max 1 p xs (p, a, b) ((q, c, d) ∷ cs) (λ i h. h.0) chain

    q-Apart : Apart q xs
    q-Apart = front-Apart ranges max 1 q xs (p, a, b) ((q, c, d) ∷ cs) (λ i h. h.1.0) chain

    prev_hit : b + 1 ≡ id → Restored max free id (return_behind from_start id (some p) q)
    unfolding return_behind
    prev_hit next =
        let new = set ranges p (taken a id q) in
        (
          record { start = start; ranges = new },
          rw (extend_prev_hit ranges p a b q at_p id next (omega arith)) refl,
          record {
            cells = xs ++ ((p, a, id) ∷ (q, c, d) ∷ cs);
            bound = word;
            sentinel = zero_kept ranges p a b q (taken a id q) z at_p;
            head = head_same xs p a b a id start ((q, c, d) ∷ cs) ((q, c, d) ∷ cs) head;
            chain =
                Chain-replace ranges new max p a b a id ((q, c, d) ∷ cs) ((q, c, d) ∷ cs)
                  (λ low h. raise_last ranges max id top low p a b q c d cs above below h) 1 p xs
                  (λ i ne h. h) p-Apart (Agree-set ranges p (taken a id q) xs p-Apart) chain;
            shows = λ j. ground (
              arith,
              shows j,
              has-append j xs ((p, a, b) ∷ (q, c, d) ∷ cs),
              has-append j xs ((p, a, id) ∷ (q, c, d) ∷ cs),
              behind.1.2,
            );
          },
        )

    next_hit :
        b + 1 ≢ id → id + 1 ≡ c → Restored max free id (return_behind from_start id (some p) q)
    unfolding return_behind
    next_hit far next =
        let (n, at) = at_q in
        let new = set ranges q (taken id d n) in
        (
          record { start = start; ranges = new },
          rw (extend_prev_miss ranges p a b q at_p id above (omega arith) far)
              (rw (extend_next_hit ranges q c d n at id next) refl),
          record {
            cells = xs ++ ((p, a, b) ∷ (q, id, d) ∷ cs);
            bound = word;
            sentinel = zero_kept ranges q c d n (taken id d n) z at;
            head = head_same xs p a b a b start ((q, c, d) ∷ cs) ((q, id, d) ∷ cs) head;
            chain =
                Chain-replace ranges new max p a b a b ((q, c, d) ∷ cs) ((q, id, d) ∷ cs)
                  (λ low h.
                    lower_second ranges max id top low p a b q c d n cs at above below word h)
                  1 p xs (λ i ne h. h) p-Apart (Agree-set ranges q (taken id d n) xs q-Apart) chain;
            shows = λ j. ground (
              arith,
              shows j,
              has-append j xs ((p, a, b) ∷ (q, c, d) ∷ cs),
              has-append j xs ((p, a, b) ∷ (q, id, d) ∷ cs),
              covers ranges max (b + 1) id q c d cs top below behind.1.5,
            );
          },
        )

    insert_between :
        b + 1 ≢ id → id + 1 ≢ c → Restored max free id (return_behind from_start id (some p) q)
    unfolding return_behind
    insert_between far far' =
        let (n, at) = at_q in
        let (v, grown, found, (ne, is_free, keeps)) = vacant_slot-Vacancy ranges vacant z in
        let mid = set grown v (taken id id q) in
        let new = set mid p (taken a b v) in
        let whole =
          Chain-grow ranges grown max 1 (xs ++ ((p, a, b) ∷ (q, c, d) ∷ cs)) keeps chain in
        let v_ne_p : v ≢ p = λ e.
          let f : get_elem? grown p ≡ some vacant = rw e at is_free in
          cc (sym f ∙ keeps p (taken a b q) at_p) in
        let mid_p : get_elem? mid p ≡ some (taken a b q) =
          get_elem?-set_ne grown v p (taken id id q) v_ne_p ∙ keeps p (taken a b q) at_p in
        let v_apart =
          Apart-front v xs ((p, a, b) ∷ (q, c, d) ∷ cs)
            (Apart-of_free grown max 1 (xs ++ ((p, a, b) ∷ (q, c, d) ∷ cs)) v is_free whole) in
        (
          record { start = start; ranges = new },
          rw (extend_prev_miss ranges p a b q at_p id above (omega arith) far) (
              rw (extend_next_miss ranges q c d n at id below far')
                (rw found (rw (relink_taken mid p a b q mid_p v) refl))),
          record {
            cells = xs ++ ((p, a, b) ∷ (v, id, id) ∷ (q, c, d) ∷ cs);
            bound = word;
            sentinel =
                zero_kept mid p a b q (taken a b v)
                  (get_elem?-set_ne grown v 0 (taken id id q) ne ∙ keeps 0 vacant z) mid_p;
            head =
                head_same xs p a b a b start ((q, c, d) ∷ cs) ((v, id, id) ∷ (q, c, d) ∷ cs) head;
            chain =
                Chain-replace grown new max p a b a b ((q, c, d) ∷ cs)
                  ((v, id, id) ∷ (q, c, d) ∷ cs)
                  (λ low h.
                    insert_second grown max id top low v p a b q c d cs is_free above below h)
                  1 v xs (λ i off h. (h.0, (λ e. off (sym e), h.1))) v_apart
                  (Agree-trans grown mid new xs (Agree-set grown v (taken id id q) xs v_apart)
                    (Agree-set mid p (taken a b v) xs p-Apart))
                  whole;
            shows = λ j. ground (
              arith,
              shows j,
              has-append j xs ((p, a, b) ∷ (q, c, d) ∷ cs),
              has-append j xs ((p, a, b) ∷ (v, id, id) ∷ (q, c, d) ∷ cs),
            );
          },
        )

  -- The whole arm.
  pub Between-Restored :
      (start : ℕ) (cells : List Cell) (w : Between id cells)
      → HeadAt cells start
      → Chain ranges max 1 cells
      → ((j : ℕ) → has j cells ≡ free j)
      → Restored max free id
          (return_behind (record { start = start; ranges = ranges }) id (some w.p) w.q)
  Between-Restored start cells w head chain shows =
      let head' = rw w.splits at head in
      let chain' = rw w.splits at chain in
      let shows' = rw w.splits at shows in
      elim (ℕ_discrete (w.b + 1) id) [
        | yes next ↦
            prev_hit start w.xs w.p w.a w.b w.q w.c w.d w.rest head' chain' shows' w.above w.below
              next
        | no far ↦ elim (ℕ_discrete (id + 1) w.c) [
          | yes next ↦
              next_hit start w.xs w.p w.a w.b w.q w.c w.d w.rest head' chain' shows' w.above w.below
                far next
          | no far' ↦
              insert_between start w.xs w.p w.a w.b w.q w.c w.d w.rest head' chain' shows' w.above
                w.below far far'
        ]
      ]
