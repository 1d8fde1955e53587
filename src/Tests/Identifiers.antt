-- ===== src/Tests/Identifiers.antt =====
-- src/pktids.rs at concrete states.
use ruq.Base.{
  List, ◌<◌, ◌≢◌, ℕ, ◌≡◌, refl, Bool, true, false, ◌||◌, ◌&&◌, [], ◌∷◌, arith, leb, ok, panic,
}
use ruq.PktIds.{vacant, taken, PktIds, next_id, return_id}
use ruq.PktIds.Chain.{Holds}
use ruq.PktIds.Next.{Answers, next_id-Answers}
use ruq.PktIds.Return.{with_id, return_id-Holds}
use ruq.PktIds.Reference.{
  Op, take_one, give, run, reference, Legal, taking, first_free, run-reference,
}
use ruq.PktIds.Overflow.{next_id_overflows}

-- Of 1 to 10 all but 3, 4 and 5 are free.
abbrev two_ranges : PktIds
two_ranges = record { start = 2; ranges = vacant ∷ taken 6 10 0 ∷ taken 1 2 1 ∷ [] }

abbrev free_two : ℕ → Bool
free_two id = (leb 1 id && leb id 2) || ((leb 6 id && leb id 10) || false)

two_ranges-Holds : Holds 10 free_two two_ranges
two_ranges-Holds = record {
  cells = (2, 1, 2) ∷ (1, 6, 10) ∷ [];
  bound = omega arith;
  sentinel = refl;
  head = refl;
  chain = (
    refl,
    omega arith,
    omega arith,
    omega arith,
    (omega arith, tt),
    (refl, omega arith, refl, omega arith, omega arith),
  );
  shows = λ id. refl;
}

return_id-Holds_example :
    (s' : PktIds) × (return_id 4 two_ranges ≡ ok s') × Holds 10 (with_id free_two 4) s'
return_id-Holds_example =
    return_id-Holds 10 free_two two_ranges 4 two_ranges-Holds (omega arith) (omega arith) refl

next_id-Answers_example : Answers 10 free_two (next_id two_ranges)
next_id-Answers_example = next_id-Answers 10 free_two two_ranges two_ranges-Holds

-- Only 65535 is free.
abbrev last_only : PktIds
last_only = record { start = 1; ranges = vacant ∷ taken 65535 65535 0 ∷ [] }

abbrev free_last : ℕ → Bool
free_last id = (leb 65535 id && leb id 65535) || false

last_only-Holds : Holds 65535 free_last last_only
last_only-Holds = record {
  cells = (1, 65535, 65535) ∷ [];
  bound = omega arith;
  sentinel = refl;
  head = refl;
  chain = (refl, omega arith, refl, omega arith, omega arith);
  shows = λ id. refl;
}

free_last_only : (j : ℕ) → free_last j ≡ true → j ≡ 65535
free_last_only j h = ground arith

next_id_overflows_example : next_id last_only ≡ panic
next_id_overflows_example = next_id_overflows last_only free_last last_only-Holds free_last_only

-- One is taken, 4 is given back, and one more is taken.
abbrev three_calls : List Op
three_calls = take_one ∷ give 4 ∷ take_one ∷ []

not_last : (i : ℕ) → i < 65535 → i ≢ 65535
not_last i h e = omega arith

three_calls-Legal : Legal 10 free_two three_calls
unfolding Legal taking first_free
three_calls-Legal = (
  (1, refl, not_last 1 (omega arith)),
  (omega arith, omega arith, refl, ((2, refl, not_last 2 (omega arith)), tt)),
)

run-reference_example :
    (s' : PktIds) × (run three_calls two_ranges ≡ ok (reference 10 free_two three_calls, s'))
run-reference_example =
    run-reference 10 free_two two_ranges three_calls two_ranges-Holds three_calls-Legal
