-- ===== src/PktIds/Insert.antt =====
-- Changes in the middle of the list of src/pktids.rs, and the search for a vacant slot.
use ruq.Base.{
  ℕ, suc, ◌+◌, ◌≡◌, refl, sym, ◌∙◌, ◌≢◌, Option, none, some, List, [], ◌∷◌, ◌++◌, arith, length,
  get_elem?, ok, All, le→leb, get_elem?-append, get_elem?-append_length,
}
use ruq.PktIds.{Node, vacant, taken, position_vacant, slot_or_push, vacant_slot}
use ruq.PktIds.Chain.{Cell, Chain, Apart, Agree}

Chain-tail :
    (ranges : List Node) (max lo : ℕ) (x y : Cell) (cs : List Cell)
    → Chain ranges max lo (x ∷ y ∷ cs)
    → (lo' : ℕ) × Chain ranges max lo' (y ∷ cs) × Apart x.0 (y ∷ cs)
Chain-tail ranges max lo (p, a, b) (q, c, d) cs (_, _, _, _, apart, rest) = (b + 1, rest, apart)

-- What stands behind a front part is itself a chain.
pub Chain-back :
    (ranges : List Node) (max lo : ℕ) (xs : List Cell) (c : Cell) (cs : List Cell)
    → Chain ranges max lo (xs ++ (c ∷ cs))
    → (lo' : ℕ) × Chain ranges max lo' (c ∷ cs)
Chain-back ranges max lo [] c cs h = (lo, h)
Chain-back ranges max lo (x ∷ []) c cs h =
    let (lo', rest, _) = Chain-tail ranges max lo x c cs h in (lo', rest)
Chain-back ranges max lo (x ∷ y ∷ xs) c cs h =
    let (lo', rest, _) = Chain-tail ranges max lo x y (xs ++ (c ∷ cs)) h in
    Chain-back ranges max lo' (y ∷ xs) c cs rest

pub Apart-back : (i : ℕ) (xs ys : List Cell) → Apart i (xs ++ ys) → Apart i ys
Apart-back i [] ys h = h
Apart-back i ((p, _, _) ∷ xs) ys (_, h) = Apart-back i xs ys h

pub Apart-append : (i : ℕ) (xs ys : List Cell) → Apart i xs → Apart i ys → Apart i (xs ++ ys)
Apart-append i [] ys h k = k
Apart-append i ((p, _, _) ∷ xs) ys (ne, h) k = (ne, Apart-append i xs ys h k)

pub Apart-front : (i : ℕ) (xs ys : List Cell) → Apart i (xs ++ ys) → Apart i xs
Apart-front i [] ys h = tt
Apart-front i ((p, _, _) ∷ xs) ys (ne, h) = (ne, Apart-front i xs ys h)

-- A slot that occurs behind the front part occurs in no cell of it.
pub front-Apart :
    (ranges : List Node) (max lo t : ℕ) (xs : List Cell) (c : Cell) (cs : List Cell)
    → ((i : ℕ) → Apart i (c ∷ cs) → i ≢ t)
    → Chain ranges max lo (xs ++ (c ∷ cs))
    → Apart t xs
front-Apart ranges max lo t [] c cs occurs h = tt
front-Apart ranges max lo t ((p, a, b) ∷ []) c cs occurs h =
    let (_, _, apart) = Chain-tail ranges max lo (p, a, b) c cs h in
    (λ e. occurs p apart (sym e), tt)
front-Apart ranges max lo t ((p, a, b) ∷ y ∷ xs) c cs occurs h =
    let (lo', rest, apart) = Chain-tail ranges max lo (p, a, b) y (xs ++ (c ∷ cs)) h in
    (
      λ e. occurs p (Apart-back p (y ∷ xs) (c ∷ cs) apart) (sym e),
      front-Apart ranges max lo' t (y ∷ xs) c cs occurs rest,
    )

pub Agree-trans : (r s t : List Node) (cs : List Cell) → Agree r s cs → Agree s t cs → Agree r t cs
Agree-trans r s t [] g h = tt
Agree-trans r s t (c ∷ cs) (e, g) (f, h) = (f ∙ e, Agree-trans r s t cs g h)

-- The cells of the front part stay apart from what replaces the part behind it, where this brings
-- in no slot but `v`.
front-All :
    (ranges : List Node) (max lo v : ℕ) (xs : List Cell) (c : Cell) (cs ys : List Cell)
    → ((i : ℕ) → v ≢ i → Apart i (c ∷ cs) → Apart i ys)
    → Apart v xs
    → Chain ranges max lo (xs ++ (c ∷ cs))
    → All (λ x. Apart x.0 ys) xs
front-All ranges max lo v [] c cs ys keep out h = tt
front-All ranges max lo v (x ∷ []) c cs ys keep out h =
    let (_, _, apart) = Chain-tail ranges max lo x c cs h in (keep x.0 out.0 apart, tt)
front-All ranges max lo v (x ∷ y ∷ xs) c cs ys keep out h =
    let (lo', rest, apart) = Chain-tail ranges max lo x y (xs ++ (c ∷ cs)) h in
    (
      keep x.0 out.0 (Apart-back x.0 (y ∷ xs) (c ∷ cs) apart),
      front-All ranges max lo' v (y ∷ xs) c cs ys keep out.1 rest,
    )

module _ (old new : List Node) (max p a b a' b' : ℕ) (cs cs' : List Cell)
    (local : (low : ℕ)
      → Chain old max low ((p, a, b) ∷ cs)
      → Chain new max low ((p, a', b') ∷ cs')) where
  replace_front :
      (lo : ℕ) (xs : List Cell)
      → All (λ x. Apart x.0 ((p, a', b') ∷ cs')) xs
      → Agree old new xs
      → Chain old max lo (xs ++ ((p, a, b) ∷ cs))
      → Chain new max lo (xs ++ ((p, a', b') ∷ cs'))
  replace_front lo [] apart g h = local lo h
  replace_front lo (x ∷ []) (apart, _) (same, _) (at, la, ab, bm, _, rest) =
      (same ∙ at, la, ab, bm, apart, local (x.2 + 1) rest)
  replace_front lo (x ∷ y ∷ xs) (apart, aparts) (same, g) (at, la, ab, bm, away, rest) = (
    same ∙ at,
    la,
    ab,
    bm,
    Apart-append x.0 (y ∷ xs) ((p, a', b') ∷ cs') (Apart-front x.0 (y ∷ xs) ((p, a, b) ∷ cs) away)
        apart,
    replace_front (x.2 + 1) (y ∷ xs) aparts g rest,
  )

  -- The part from the slot `p` on is replaced, and the front part is kept.
  pub Chain-replace :
      (lo v : ℕ) (xs : List Cell)
      → ((i : ℕ) → v ≢ i → Apart i ((p, a, b) ∷ cs) → Apart i ((p, a', b') ∷ cs'))
      → Apart v xs
      → Agree old new xs
      → Chain old max lo (xs ++ ((p, a, b) ∷ cs))
      → Chain new max lo (xs ++ ((p, a', b') ∷ cs'))
  Chain-replace lo v xs keep out g h =
      replace_front lo xs (front-All old max lo v xs (p, a, b) cs ((p, a', b') ∷ cs') keep out h) g
        h

-- The vacant slot that is found or pushed; all that the vector held it still holds.
abbrev pub Vacancy : List Node → ℕ → List Node → Type 0
Vacancy old at new =
    (at ≢ 0)
    × (get_elem? new at ≡ some vacant)
    × ((i : ℕ) (n : Node) → get_elem? old i ≡ some n → get_elem? new i ≡ some n)

position_vacant-found :
    (at v : ℕ) (nodes : List Node)
    → position_vacant at nodes ≡ some v
    → (k : ℕ) × (v ≡ at + k) × (get_elem? nodes k ≡ some vacant)
unfolding position_vacant
position_vacant-found at v [] e = cc
position_vacant-found at v (vacant ∷ nodes) e = (0, ground arith, refl)
position_vacant-found at v (taken a b n ∷ nodes) e =
    let (k, s, f) = position_vacant-found (at + 1) v nodes e in (suc k, omega arith, f)

slot_or_push-Vacancy :
    (m : Node) (nodes : List Node) (found : Option ℕ)
    → position_vacant 1 nodes ≡ found
    → Vacancy (m ∷ nodes) (slot_or_push (m ∷ nodes) found).0 (slot_or_push (m ∷ nodes) found).1
unfolding slot_or_push
slot_or_push-Vacancy m nodes (some v) e =
    let (k, s, f) = position_vacant-found 1 v nodes e in
    (omega arith, rw (let q : v ≡ suc k = omega arith in q) f, λ i n h. h)
slot_or_push-Vacancy m nodes none e = (
  omega arith,
  get_elem?-append_length (m ∷ nodes) vacant,
  λ i n h. get_elem?-append (m ∷ nodes) (vacant ∷ []) i n h,
)

-- A vector with a slot 0 has, or gets, a vacant slot behind it.
pub vacant_slot-Vacancy :
    (ranges : List Node) (n : Node)
    → get_elem? ranges 0 ≡ some n
    → (at : ℕ) × (new : List Node) × (vacant_slot ranges ≡ ok (at, new)) × Vacancy ranges at new
unfolding vacant_slot
vacant_slot-Vacancy [] n e = cc
vacant_slot-Vacancy (m ∷ nodes) n e =
    let found = slot_or_push (m ∷ nodes) (position_vacant 1 nodes) in
    (
      found.0,
      found.1,
      rw (le→leb 1 (length (m ∷ nodes)) (omega arith)) refl,
      slot_or_push-Vacancy m nodes (position_vacant 1 nodes) refl,
    )
