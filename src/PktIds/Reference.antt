-- ===== src/PktIds/Reference.antt =====
-- src/pktids.rs against a reference allocator, which keeps the set of free identifiers and searches
-- it from 1 on.
use ruq.Base.{
  ℕ, zero, suc, ◌+◌, ◌≤◌, ◌<◌, ◌≡◌, refl, ◌∙◌, ◌≢◌, Bool, true, false, Option, none, some, ok, err,
  panic, out_of_fuel, ◌>>=◌, List, [], ◌∷◌, arith, if◌then◌else◌, Bool-cases, inl, inr, subst, ap,
}
use ruq.PktIds.{PktIds, Run, next_id, return_id}
use ruq.PktIds.Chain.{Holds, has_bounds}
use ruq.PktIds.Next.{without, Answers, handed_out, used_up, overflowed, next_id-Answers}
use ruq.PktIds.Return.{with_id, return_id-Holds}
use native.Mathlib.Decide.{ℕ_discrete}

pub data Op : Type 0 where
  take_one : Op
  give : ℕ → Op

-- The calls, one after the other; each `take_one` replies.
unfoldable pub run : List Op → PktIds → Run (List (Option ℕ) × PktIds)
run [] s = ok ([], s)
run (take_one ∷ ops) s = do
  (id, s') ← next_id s
  (replies, s'') ← run ops s'
  ok (id ∷ replies, s'')
run (give id ∷ ops) s = do s' ← return_id id s; run ops s'

-- The first free identifier of `n`, from `at` on.
unfoldable pub first_free : (n at : ℕ) → (ℕ → Bool) → Option ℕ
first_free zero at free = none
first_free (suc n) at free =
    let rest = first_free n (at + 1) free in if free at then some at else rest

unfoldable pub taking : Option ℕ → (ℕ → Bool) → ℕ → Bool
taking none free = free
taking (some id) free = without free id

unfoldable pub reference : ℕ → (ℕ → Bool) → List Op → List (Option ℕ)
reference max free [] = []
reference max free (take_one ∷ ops) =
    let id = first_free max 1 free in id ∷ reference max (taking id free) ops
reference max free (give id ∷ ops) = reference max (with_id free id) ops

-- An identifier is given back only while it is not free, and taken only while one below 65535 is.
unfoldable pub Legal : ℕ → (ℕ → Bool) → List Op → Type 0
Legal max free [] = Unit
Legal max free (take_one ∷ ops) =
    ((i : ℕ) × (free i ≡ true) × (i ≢ 65535)) × Legal max (taking (first_free max 1 free) free) ops
Legal max free (give id ∷ ops) =
    (1 ≤ id) × (id ≤ max) × (free id ≡ false) × Legal max (with_id free id) ops

first_free-least :
    (n at : ℕ) (free : ℕ → Bool) (id : ℕ)
    → free id ≡ true
    → ((j : ℕ) → free j ≡ true → id ≤ j)
    → at ≤ id
    → id < at + n
    → first_free n at free ≡ some id
unfolding first_free
first_free-least zero at free id out least low high = absurd (omega arith)
first_free-least (suc n) at free id out least low high = elim (Bool-cases (free at)) [
  | inl here ↦ let same : at ≡ id = omega (arith, least at here) in rw here (ap some same)
  | inr further ↦
      rw further (first_free-least n (at + 1) free id out least (above further) (omega arith))
]
  where
    above : free at ≡ false → at + 1 ≤ id
    above q = elim (ℕ_discrete at id) [
      | yes same ↦
          let used : free id ≡ false = subst (λ j. free j ≡ false) same q in absurd (cc (used, out))
      | no other ↦ omega (arith, other)
    ]

-- A call of `next_id`, by its outcome, where an identifier below 65535 is free.
took :
    (max : ℕ) (free : ℕ → Bool) (s : PktIds) (i : ℕ) (r : Run (Option ℕ × PktIds))
    → Holds max free s
    → free i ≡ true
    → i ≢ 65535
    → Answers max free r
    → (id : ℕ) × (s' : PktIds) × (r ≡ ok (some id, s'))
      × (first_free max 1 free ≡ some id)
      × Holds max (without free id) s'
took max free s i (ok (some id, s')) held f ne (handed_out out least h) =
    let (low, high) = has_bounds s.ranges max 1 id held.cells held.chain (held.shows id ∙ out) in
    (id, s', refl, first_free-least max 1 free id out least low (omega arith), h)
took max free s i (ok (none, s')) held f ne (used_up empty h) = absurd (cc (empty i, f))
took max free s i panic held f ne (overflowed last) = absurd (ne (last i f))
took max free s i (err x) held f ne _ = elim x [ ]
took max free s i out_of_fuel held f ne x = elim x [ ]

-- From any state that holds the set `free`, calls in any order, where an identifier is given back only
-- while it is not free and one is taken only while one below 65535 is free, come back without a
-- panic, and reply just as the reference allocator does.
pub run-reference :
    (max : ℕ) (free : ℕ → Bool) (s : PktIds) (ops : List Op)
    → Holds max free s
    → Legal max free ops
    → (s' : PktIds) × (run ops s ≡ ok (reference max free ops, s'))
unfolding run reference Legal taking
run-reference max free s [] h legal = (s, refl)
run-reference max free s (take_one ∷ ops) h ((i, f, ne), legal) =
    let (id, s', called, found, held) = took max free s i _ h f ne (next_id-Answers max free s h) in
    let legal' = rw (found, taking) at legal in
    let (s'', more) = run-reference max (without free id) s' ops held legal' in
    (s'', rw (called, found) (rw more refl))
run-reference max free s (give id ∷ ops) h (low, high, used, legal) =
    let (s', called, held) = return_id-Holds max free s id h low high used in
    let (s'', more) = run-reference max (with_id free id) s' ops held legal in (s'', rw called more)
