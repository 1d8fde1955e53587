-- ===== src/PktIds/Next.antt =====
-- `next_id` hands out the smallest free identifier.
use ruq.Base.{
  ℕ, ◌+◌, ◌^◌, ◌≤◌, ◌<◌, ◌≡◌, refl, ◌∙◌, ◌≢◌, Bool, true, false, Option, none, some, List, [], ◌∷◌,
  arith, get_elem?, set, ◌==◌, get_elem?-set_self, get_elem?-set_ne, length-set, lt-length_of_get,
  ok, panic, if◌then◌else◌,
}
use ruq.PktIds.{Node, vacant, taken, PktIds, Run, next_id, is_vacant, next_id_at, take_head}
use native.Mathlib.Decide.{dec_lt}
use ruq.PktIds.Chain.{
  Cell, Chain, Chain-head, Chain-weaken, HeadAt, has, Holds, Apart, Chain-Agree, Agree-set,
  has_bounds, Agree,
}

abbrev pub without : (ℕ → Bool) → ℕ → ℕ → Bool
without free id j = if j == id then false else free j

-- What a call may come to: the smallest free identifier, which is then no longer free; nothing,
-- where none is free; or a panic, where none below 65535 is.
pub data Answers (max : ℕ) (free : ℕ → Bool) : Run (Option ℕ × PktIds) → Type 0 where
  handed_out :
      {id : ℕ} {s : PktIds}
      → free id ≡ true
      → ((j : ℕ) → free j ≡ true → id ≤ j)
      → Holds max (without free id) s
      → Answers max free (ok (some id, s))
  used_up :
      {s : PktIds} → ((j : ℕ) → free j ≡ false) → Holds max free s → Answers max free (ok (none, s))
  overflowed : ((j : ℕ) → free j ≡ true → j ≡ 65535) → Answers max free panic

-- The arms of `next_id`.
module _ (p a b n : ℕ) (ranges : List Node) where
  abbrev kept_head : PktIds
  kept_head = record { start = p; ranges = set (set ranges p vacant) p (taken (a + 1) b n) }

  take_head_more :
      a < b → 0 < a → a + 1 < 2 ^ 16 → take_head p a b n ranges ≡ ok (some a, kept_head)
  unfolding take_head
  take_head_more lt pos fits = ground arith

  take_head_keep :
      a ≤ b
      → 0 < a
      → a + 1 < 2 ^ 16
      → is_vacant (get_elem? (set ranges p vacant) n) ≡ true
      → take_head p a b n ranges ≡ ok (some a, kept_head)
  unfolding take_head
  take_head_keep le pos fits gone = ground arith

  take_head_empty :
      b < a
      → a + 1 < 2 ^ 16
      → is_vacant (get_elem? (set ranges p vacant) n) ≡ true
      → take_head p a b n ranges ≡ ok (none, kept_head)
  unfolding take_head
  take_head_empty lt fits gone = ground arith

  pub take_head_overflow :
      b ≤ a
      → 2 ^ 16 ≤ a + 1
      → is_vacant (get_elem? (set ranges p vacant) n) ≡ true
      → take_head p a b n ranges ≡ panic
  unfolding take_head
  take_head_overflow le full gone = ground arith

  take_head_onward :
      a ≡ b
      → 0 < a
      → is_vacant (get_elem? (set ranges p vacant) n) ≡ false
      → take_head p a b n ranges ≡ ok (some a, record { start = n; ranges = set ranges p vacant })
  unfolding take_head
  take_head_onward e pos more = ground arith

-- What stays at a slot `i` when the slot `p` of the head is written twice, and what is at `p`.
module _ (ranges : List Node) (p : ℕ) (v w : Node) where
  rewritten_ne : (i : ℕ) → p ≢ i → get_elem? (set (set ranges p v) p w) i ≡ get_elem? ranges i
  rewritten_ne i ne = get_elem?-set_ne (set ranges p v) p i w ne ∙ get_elem?-set_ne ranges p i v ne

  rewritten_self :
      (old : Node) → get_elem? ranges p ≡ some old → get_elem? (set (set ranges p v) p w) p ≡ some w
  rewritten_self old at =
      get_elem?-set_self (set ranges p v) p w
        (omega (arith, length-set ranges p v, lt-length_of_get ranges p old at))

  rewritten-Agree : (cs : List Cell) → Apart p cs → Agree ranges (set (set ranges p v) p w) cs
  rewritten-Agree [] apart = tt
  rewritten-Agree ((q, c, d) ∷ cs) (ne, apart) = (rewritten_ne q ne, rewritten-Agree cs apart)

pub taken_ne_zero :
    (ranges : List Node) (p : ℕ) {a b n : ℕ}
    → get_elem? ranges 0 ≡ some vacant
    → get_elem? ranges p ≡ some (taken a b n)
    → p ≢ 0
taken_ne_zero ranges p z at e = cc (rw e at at)

module _ (ranges : List Node) (max : ℕ) (free : ℕ → Bool) (small : max < 2 ^ 16)
    (z : get_elem? ranges 0 ≡ some vacant) where
  -- The head keeps its slot and starts one later; `f` is what is then free.
  advanced :
      (p a b n : ℕ) (cs : List Cell) (f : ℕ → Bool)
      → get_elem? ranges p ≡ some (taken a b n)
      → (Chain (set (set ranges p vacant) p (taken (a + 1) b n)) max 1 ((p, a + 1, b) ∷ cs))
      → ((j : ℕ) → has j ((p, a + 1, b) ∷ cs) ≡ f j)
      → Holds max f (record { start = p; ranges = set (set ranges p vacant) p (taken (a + 1) b n) })
  advanced p a b n cs f at chain shows = record {
    cells = (p, a + 1, b) ∷ cs;
    bound = small;
    sentinel = rewritten_ne ranges p vacant (taken (a + 1) b n) 0 (taken_ne_zero ranges p z at) ∙ z;
    head = refl;
    chain = chain;
    shows = shows;
  }

  -- The last node alone.
  next_last :
      (p a b : ℕ)
      → Chain ranges max 1 ((p, a, b) ∷ [])
      → ((j : ℕ) → has j ((p, a, b) ∷ []) ≡ free j)
      → Answers max free (take_head p a b 0 ranges)
  next_last p a b (at, pos, bm, word, top) shows =
      let gone : is_vacant (get_elem? (set ranges p vacant) 0) ≡ true =
        rw (get_elem?-set_ne ranges p 0 vacant (taken_ne_zero ranges p z at), z) refl in
      let new = set (set ranges p vacant) p (taken (a + 1) b 0) in
      let at' : get_elem? new p ≡ some (taken (a + 1) b 0) =
        rewritten_self ranges p vacant (taken (a + 1) b 0) (taken a b 0) at in
      elim (dec_lt (a + 1) (2 ^ 16)) [
        | yes fits ↦
            let chain : Chain new max 1 ((p, a + 1, b) ∷ []) =
              (at', omega arith, bm, fits, omega arith) in
            elim (dec_lt b a) [
              | yes empty ↦ rw (take_head_empty p a b 0 ranges empty fits gone) (
                  used_up (λ j. ground (arith, shows j))
                    (advanced p a b 0 [] free at chain (λ j. ground (arith, shows j))))
              | no some_left ↦ rw (take_head_keep p a b 0 ranges (omega arith) pos fits gone) (
                  handed_out (ground (arith, shows a)) (λ j e. ground (arith, shows j))
                    (advanced p a b 0 [] (without free a) at chain (λ j. ground (arith, shows j))))
            ]
        | no full ↦
            rw (take_head_overflow p a b 0 ranges (omega arith) (omega arith) gone)
              (overflowed (λ j e. ground (arith, shows j)))
      ]

  -- A node with another behind it.
  next_inner :
      (p a b q c d : ℕ) (cs : List Cell)
      → Chain ranges max 1 ((p, a, b) ∷ (q, c, d) ∷ cs)
      → ((j : ℕ) → has j ((p, a, b) ∷ (q, c, d) ∷ cs) ≡ free j)
      → Answers max free (take_head p a b q ranges)
  next_inner p a b q c d cs (at, pos, ab, bm, apart, rest) shows =
      let new = set (set ranges p vacant) p (taken (a + 1) b q) in
      let kept : Chain new max (b + 1) ((q, c, d) ∷ cs) =
        Chain-Agree ranges new max (b + 1) ((q, c, d) ∷ cs)
          (rewritten-Agree ranges p vacant (taken (a + 1) b q) ((q, c, d) ∷ cs) apart) rest in
      elim (dec_lt a b) [
        | yes more ↦ rw (take_head_more p a b q ranges more pos (omega arith)) (
            handed_out (ground (arith, shows a))
              (λ j e.
                ground (arith, shows j, has_bounds ranges max (b + 1) j ((q, c, d) ∷ cs) rest))
              (advanced p a b q ((q, c, d) ∷ cs) (without free a) at
                (
                  rewritten_self ranges p vacant (taken (a + 1) b q) (taken a b q) at,
                  omega arith,
                  omega arith,
                  bm,
                  apart,
                  kept,
                )
                (λ j.
                  ground (arith, shows j, has_bounds ranges max (b + 1) j ((q, c, d) ∷ cs) rest))))
        | no last ↦
            let (n, at_q) = Chain-head ranges max (b + 1) q c d cs rest in
            let gone = set ranges p vacant in
            let more : is_vacant (get_elem? gone q) ≡ false =
              rw (get_elem?-set_ne ranges p q vacant apart.0, at_q) refl in
            rw (take_head_onward p a b q ranges (omega arith) pos more) (
              handed_out (ground (arith, shows a))
                (λ j e.
                  ground (arith, shows j, has_bounds ranges max (b + 1) j ((q, c, d) ∷ cs) rest))
                (record {
                  cells = (q, c, d) ∷ cs;
                  bound = small;
                  sentinel = get_elem?-set_ne ranges p 0 vacant (taken_ne_zero ranges p z at) ∙ z;
                  head = refl;
                  chain = Chain-weaken gone max 1 (b + 1) ((q, c, d) ∷ cs) (omega arith) (
                      Chain-Agree ranges gone max (b + 1) ((q, c, d) ∷ cs)
                        (Agree-set ranges p vacant ((q, c, d) ∷ cs) apart) rest);
                  shows = λ j.
                      ground
                        (arith, shows j, has_bounds ranges max (b + 1) j ((q, c, d) ∷ cs) rest);
                }))
      ]

next_id_cells :
    (max : ℕ) (free : ℕ → Bool) (s : PktIds) (cs : List Cell)
    → max < 2 ^ 16
    → get_elem? s.ranges 0 ≡ some vacant
    → HeadAt cs s.start
    → Chain s.ranges max 1 cs
    → ((j : ℕ) → has j cs ≡ free j)
    → Answers max free (next_id s)
unfolding next_id next_id_at
next_id_cells max free s [] small z head h shows = absurd h
next_id_cells max free s ((p, a, b) ∷ []) small z head h shows =
    rw (head, h.0) (next_last s.ranges max free small z p a b h shows)
next_id_cells max free s ((p, a, b) ∷ (q, c, d) ∷ cs) small z head h shows =
    rw (head, h.0) (next_inner s.ranges max free small z p a b q c d cs h shows)

-- In every state that holds the set `free`, `next_id` comes back with the smallest free identifier
-- and takes it out of the set; or with nothing, if the set is empty; or panics, and then no
-- identifier but 65535 is free.
pub next_id-Answers :
    (max : ℕ) (free : ℕ → Bool) (s : PktIds) → Holds max free s → Answers max free (next_id s)
next_id-Answers max free s h =
    next_id_cells max free s h.cells h.bound h.sentinel h.head h.chain h.shows
