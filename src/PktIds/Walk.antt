-- ===== src/PktIds/Walk.antt =====
-- Where the search of `return_id` stops.
use ruq.Base.{
  ℕ, zero, suc, ◌+◌, ◌≤◌, ◌<◌, ◌≡◌, refl, sym, ap, ◌∙◌, ◌⊎◌, inl, inr, false, Option, some, List,
  [], ◌∷◌, ◌++◌, arith, length, get_elem?, ok, lt→ltb, le→not_ltb,
}
use ruq.PktIds.{Node, taken, walk}
use ruq.PktIds.Chain.{Cell, Chain, has, HeadAt}
use native.Mathlib.Decide.{dec_lt}

-- Before the first cell.
pub record AtFront (id : ℕ) (cells : List Cell) : Type 0 where
  pub q : ℕ
  pub c : ℕ
  pub d : ℕ
  pub rest : List Cell
  pub splits : cells ≡ (q, c, d) ∷ rest
  pub below : id < c

-- Behind the cell of slot `p`, before that of slot `q`.
pub record Between (id : ℕ) (cells : List Cell) : Type 0 where
  pub xs : List Cell
  pub p : ℕ
  pub a : ℕ
  pub b : ℕ
  pub q : ℕ
  pub c : ℕ
  pub d : ℕ
  pub rest : List Cell
  pub splits : cells ≡ xs ++ ((p, a, b) ∷ (q, c, d) ∷ rest)
  pub above : b < id
  pub below : id < c

first_below :
    {id : ℕ} (cells : List Cell) (q c d : ℕ) (rest : List Cell)
    → AtFront id cells
    → cells ≡ (q, c, d) ∷ rest
    → id < c
first_below cells q c d rest f e = let same : f.c ≡ c = cc (sym f.splits ∙ e) in rw same at f.below

abbrev pub Found : List Node → ℕ → List Cell → Option ℕ → ℕ → ℕ → Type 0
Found ranges id cells prev at fuel =
    (AtFront id cells × (walk fuel ranges id prev at ≡ ok (prev, at)))
    ⊎ ((w : Between id cells) × (walk fuel ranges id prev at ≡ ok (some w.p, w.q)))

module _ (ranges : List Node) (id max : ℕ) (top : id ≤ max) where
  stop :
      (fuel at a b n : ℕ) (prev : Option ℕ)
      → get_elem? ranges at ≡ some (taken a b n)
      → id < a
      → walk (suc fuel) ranges id prev at ≡ ok (prev, at)
  unfolding walk
  stop fuel at a b n prev e lt = rw (e, walk) (rw (lt→ltb id a lt) refl)

  go_on :
      (fuel at a b n : ℕ) (prev : Option ℕ)
      → get_elem? ranges at ≡ some (taken a b n)
      → a ≤ id
      → walk (suc fuel) ranges id prev at ≡ walk fuel ranges id (some at) n
  unfolding walk
  go_on fuel at a b n prev e le = rw (e, walk) (rw (le→not_ltb id a le) refl)

  pub walk-Found :
      (fuel lo : ℕ) (cells : List Cell) (prev : Option ℕ) (at : ℕ)
      → Chain ranges max lo cells
      → HeadAt cells at
      → has id cells ≡ false
      → length cells ≤ fuel
      → Found ranges id cells prev at fuel
  walk-Found fuel lo [] prev at h e out len = absurd h
  walk-Found zero lo (c ∷ cells) prev at h e out len = absurd (omega arith)
  walk-Found (suc fuel) lo ((p, a, b) ∷ []) prev at h e out len =
      let at_p : get_elem? ranges at ≡ some (taken a b 0) = rw e h.0 in
      let lt : id < a = ground arith in
      inl (
        record { q = p; c = a; d = b; rest = []; splits = refl; below = lt },
        stop fuel at a b 0 prev at_p lt,
      )
  walk-Found (suc fuel) lo ((p, a, b) ∷ (q, c, d) ∷ cells) prev at h e out len =
      let at_p : get_elem? ranges at ≡ some (taken a b q) = rw e h.0 in
      elim (dec_lt id a) [
        | yes lt ↦ inl (
          record { q = p; c = a; d = b; rest = (q, c, d) ∷ cells; splits = refl; below = lt },
          stop fuel at a b q prev at_p lt,
        )
        | no ge ↦
            let above : b < id = ground arith in
            let next = go_on fuel at a b q prev at_p (omega arith) in
            elim (walk-Found fuel (b + 1) ((q, c, d) ∷ cells) (some at) q h.5 refl (ground arith)
              (omega arith)) [
                | inl (f, w) ↦ inr (
                  record {
                    xs = [];
                    p = p;
                    a = a;
                    b = b;
                    q = q;
                    c = c;
                    d = d;
                    rest = cells;
                    splits = refl;
                    above = above;
                    below = first_below ((q, c, d) ∷ cells) q c d cells f refl;
                  },
                  next ∙ w ∙ ap (λ (k : ℕ). ok (some k, q)) e,
                )
                | inr (f, w) ↦ inr (
                  record {
                    xs = (p, a, b) ∷ f.xs;
                    p = f.p;
                    a = f.a;
                    b = f.b;
                    q = f.q;
                    c = f.c;
                    d = f.d;
                    rest = f.rest;
                    splits = ap (λ l. (p, a, b) ∷ l) f.splits;
                    above = f.above;
                    below = f.below;
                  },
                  next ∙ w,
                )
              ]
      ]
