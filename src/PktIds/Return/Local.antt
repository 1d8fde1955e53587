-- ===== src/PktIds/Return/Local.antt =====
-- The changes that `return_id` makes at the place where the identifier belongs, and the calls that
-- make them.
use ruq.Base.{
  ℕ, ◌+◌, ◌^◌, ◌≤◌, ◌<◌, ◌≡◌, sym, ◌∙◌, ◌≢◌, some, List, [], ◌∷◌, arith, get_elem?, set,
  get_elem?-set_ne, get_elem?-set_self, lt-length_of_get,
}
use ruq.PktIds.{Node, vacant, taken}
use ruq.PktIds.Chain.{Cell, Chain, Chain-Agree, Apart, Agree-set, Apart-of_free}

-- A chain may be taken to start anywhere up to its first cell.
pub Chain-raise :
    (ranges : List Node) (max lo lo' q c d : ℕ) (cs : List Cell)
    → lo' ≤ c
    → lo' ≤ max + 1
    → Chain ranges max lo ((q, c, d) ∷ cs)
    → Chain ranges max lo' ((q, c, d) ∷ cs)
Chain-raise ranges max lo lo' q c d [] le top (at, _, dm, word, _) = (at, le, dm, word, top)
Chain-raise ranges max lo lo' q c d (x ∷ cs) le top (at, _, cd, dm, apart, rest) =
    (at, le, cd, dm, apart, rest)

-- All that a vector held it still holds.
pub Chain-grow :
    (old new : List Node) (max lo : ℕ) (cs : List Cell)
    → ((i : ℕ) (n : Node) → get_elem? old i ≡ some n → get_elem? new i ≡ some n)
    → Chain old max lo cs
    → Chain new max lo cs
Chain-grow old new max lo [] g h = h
Chain-grow old new max lo ((p, a, b) ∷ []) g (at, la, bm, word, top) = (g p _ at, la, bm, word, top)
Chain-grow old new max lo ((p, a, b) ∷ (q, c, d) ∷ cs) g (at, la, ab, bm, apart, rest) =
    (g p _ at, la, ab, bm, apart, Chain-grow old new max (b + 1) ((q, c, d) ∷ cs) g rest)

pub get_set :
    (ranges : List Node) (i : ℕ) (old new : Node)
    → get_elem? ranges i ≡ some old
    → get_elem? (set ranges i new) i ≡ some new
get_set ranges i old new e = get_elem?-set_self ranges i new (lt-length_of_get ranges i old e)

module _ (ranges : List Node) (max id : ℕ) (top : id ≤ max) where
  -- The first cell is made to start at `id`.
  pub lower_first :
      (lo q c d n : ℕ) (cs : List Cell)
      → get_elem? ranges q ≡ some (taken c d n)
      → lo ≤ id
      → id < c
      → max < 2 ^ 16
      → Chain ranges max lo ((q, c, d) ∷ cs)
      → Chain (set ranges q (taken id d n)) max lo ((q, id, d) ∷ cs)
  lower_first lo q c d n [] e le lt word (at, lc, dm, _, hi) =
      let n_zero : n ≡ 0 = cc (sym e ∙ at) in
      (rw n_zero (get_set ranges q (taken c d n) (taken id d 0) e), le, dm, omega arith, hi)
  lower_first lo q c d n ((r, f, g) ∷ cs) e le lt word (at, lc, cd, dm, apart, rest) =
      let n_r : n ≡ r = cc (sym e ∙ at) in
      (
        rw n_r (get_set ranges q (taken c d n) (taken id d r) e),
        le,
        omega arith,
        dm,
        apart,
        Chain-Agree ranges (set ranges q (taken id d n)) max (d + 1) ((r, f, g) ∷ cs)
            (Agree-set ranges q (taken id d n) ((r, f, g) ∷ cs) apart) rest,
      )

  -- The cell in front of `id` is made to end there.
  pub raise_last :
      (low p a b q c d : ℕ) (cs : List Cell)
      → b < id
      → id < c
      → Chain ranges max low ((p, a, b) ∷ (q, c, d) ∷ cs)
      → Chain (set ranges p (taken a id q)) max low ((p, a, id) ∷ (q, c, d) ∷ cs)
  raise_last low p a b q c d cs above below (at, la, ab, bm, apart, rest) =
      let new = set ranges p (taken a id q) in
      (
        get_set ranges p (taken a b q) (taken a id q) at,
        la,
        omega arith,
        top,
        apart,
        Chain-raise new max (b + 1) (id + 1) q c d cs (omega arith) (omega arith) (
            Chain-Agree ranges new max (b + 1) ((q, c, d) ∷ cs)
              (Agree-set ranges p (taken a id q) ((q, c, d) ∷ cs) apart) rest),
      )

  -- The cell behind `id` is made to start there, seen from the cell in front.
  pub lower_second :
      (low p a b q c d n : ℕ) (cs : List Cell)
      → get_elem? ranges q ≡ some (taken c d n)
      → b < id
      → id < c
      → max < 2 ^ 16
      → Chain ranges max low ((p, a, b) ∷ (q, c, d) ∷ cs)
      → Chain (set ranges q (taken id d n)) max low ((p, a, b) ∷ (q, id, d) ∷ cs)
  lower_second low p a b q c d n cs e above below word (at, la, ab, bm, apart, rest) = (
    get_elem?-set_ne ranges q p (taken id d n) (λ w. apart.0 (sym w)) ∙ at,
    la,
    ab,
    bm,
    apart,
    lower_first (b + 1) q c d n cs e (omega arith) below word rest,
  )

  -- A new cell at the vacant slot `v` in front of a chain.
  pub insert_first :
      (lo v q c d : ℕ) (cs : List Cell)
      → get_elem? ranges v ≡ some vacant
      → 1 ≤ id
      → id < c
      → Chain ranges max lo ((q, c, d) ∷ cs)
      → (lo' : ℕ) → lo' ≤ id
      → Chain (set ranges v (taken id id q)) max lo' ((v, id, id) ∷ (q, c, d) ∷ cs)
  insert_first lo v q c d cs e pos below h lo' le =
      let new = set ranges v (taken id id q) in
      let apart = Apart-of_free ranges max lo ((q, c, d) ∷ cs) v e h in
      (
        get_set ranges v vacant (taken id id q) e,
        le,
        omega arith,
        top,
        apart,
        Chain-raise new max lo (id + 1) q c d cs (omega arith) (omega arith) (
            Chain-Agree ranges new max lo ((q, c, d) ∷ cs)
              (Agree-set ranges v (taken id id q) ((q, c, d) ∷ cs) apart) h),
      )

  -- A new cell between two.
  pub insert_second :
      (low v p a b q c d : ℕ) (cs : List Cell)
      → get_elem? ranges v ≡ some vacant
      → b < id
      → id < c
      → Chain ranges max low ((p, a, b) ∷ (q, c, d) ∷ cs)
      → Chain
          (set (set ranges v (taken id id q)) p (taken a b v))
          max
          low
          ((p, a, b) ∷ (v, id, id) ∷ (q, c, d) ∷ cs)
  insert_second low v p a b q c d cs e above below (at, la, ab, bm, apart, rest) =
      let mid = set ranges v (taken id id q) in
      let new = set mid p (taken a b v) in
      let ne : v ≢ p = λ w. cc (rw w at e) in
      let apart' : Apart p ((v, id, id) ∷ (q, c, d) ∷ cs) = (λ w. ne (sym w), apart) in
      (
        get_set mid p (taken a b q) (taken a b v)
            (get_elem?-set_ne ranges v p (taken id id q) ne ∙ at),
        la,
        ab,
        bm,
        apart',
        Chain-Agree mid new max (b + 1) ((v, id, id) ∷ (q, c, d) ∷ cs)
            (Agree-set mid p (taken a b v) ((v, id, id) ∷ (q, c, d) ∷ cs) apart')
            (insert_first (b + 1) v q c d cs e (omega arith) below rest (b + 1) (omega arith)),
      )

-- An identifier below the first cell is no greater than the end of that cell.
pub covers :
    (ranges : List Node) (max lo id q c d : ℕ) (cs : List Cell)
    → id ≤ max
    → id < c
    → Chain ranges max lo ((q, c, d) ∷ cs)
    → id ≤ d
covers ranges max lo id q c d [] top lt (_, _, dm, _, _) = omega arith
covers ranges max lo id q c d (x ∷ cs) top lt (_, _, cd, _, _, _) = omega arith
