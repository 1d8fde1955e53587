-- ===== src/EventLoop/Queue.antt =====
-- src/lib.rs, `poll`: the queue of unacknowledged packets, and the identifiers that its entries use.
use ruq.Base.{
  ℕ, ◌≡◌, ap, subst, ◌≢◌, Bool, true, false, List, [], ◌∷◌, ◌++◌, arith, inl, inr, Bool-cases, ◌==◌,
}
use ruq.Protocol.PktId.{IsPktId}
use ruq.Protocol.Publish.{Publish}
use ruq.PktIds.Next.{without}
use ruq.PktIds.Return.{with_id}
use ruq.EventLoop.{remove_first}

-- No entry of the queue has the identifier.
abbrev pub Absent : ℕ → List (ℕ × Publish) → Type 0
Absent id [] = Unit
Absent id ((j, _) ∷ queue) = (id ≢ j) × Absent id queue

-- The identifiers of the queue are in use, and no two are the same.
abbrev pub Queued : (ℕ → Bool) → List (ℕ × Publish) → Type 0
Queued free [] = Unit
Queued free ((j, _) ∷ queue) = (free j ≡ false) × IsPktId j × Absent j queue × Queued free queue

pub Absent-remove :
    (j id : ℕ) (queue : List (ℕ × Publish)) → Absent j queue → Absent j (remove_first id queue)
unfolding remove_first
Absent-remove j id [] h = tt
Absent-remove j id ((k, p) ∷ queue) (ne, h) = elim (Bool-cases (k == id)) [
  | inl met ↦ rw met h
  | inr missed ↦ rw missed (ne, Absent-remove j id queue h)
]

pub Queued-with :
    (free : ℕ → Bool) (id : ℕ) (queue : List (ℕ × Publish))
    → Absent id queue
    → Queued free queue
    → Queued (with_id free id) queue
Queued-with free id [] a h = tt
Queued-with free id ((k, p) ∷ queue) (ne, a) (out, word, alone, h) =
    (ground arith, word, alone, Queued-with free id queue a h)

pub Queued-remove :
    (free : ℕ → Bool) (id : ℕ) (queue : List (ℕ × Publish))
    → Queued free queue
    → Absent id (remove_first id queue) × Queued (with_id free id) (remove_first id queue)
unfolding remove_first
Queued-remove free id [] h = (tt, tt)
Queued-remove free id ((k, p) ∷ queue) (out, word, alone, h) = elim (Bool-cases (k == id)) [
  | inl met ↦
      let same : k ≡ id = ground arith in
      let gone : Absent id queue = subst (λ i. Absent i queue) same alone in
      rw met (gone, Queued-with free id queue gone h)
  | inr missed ↦
      let (a, rest) = Queued-remove free id queue h in
      rw missed ((ground arith, a), (ground arith, word, Absent-remove k id queue alone, rest))
]

pub Absent-out :
    (free : ℕ → Bool) (id : ℕ) (queue : List (ℕ × Publish))
    → free id ≡ true
    → Queued free queue
    → Absent id queue
Absent-out free id [] e h = tt
Absent-out free id ((k, p) ∷ queue) e (out, word, alone, h) =
    (λ q. cc (e, out, q), Absent-out free id queue e h)

-- An entry that was put at the end is the first with its identifier.
pub remove_first-append :
    (id : ℕ) (pkt : Publish) (queue : List (ℕ × Publish))
    → Absent id queue
    → remove_first id (queue ++ ((id, pkt) ∷ [])) ≡ queue
unfolding remove_first
remove_first-append id pkt [] h = ground arith
remove_first-append id pkt ((k, p) ∷ queue) (ne, h) = elim (Bool-cases (k == id)) [
  | inl met ↦ absurd (ne (ground arith))
  | inr missed ↦ rw missed (ap (λ q. (k, p) ∷ q) (remove_first-append id pkt queue h))
]

Absent-append :
    (j id : ℕ) (pkt : Publish) (queue : List (ℕ × Publish))
    → j ≢ id
    → Absent j queue
    → Absent j (queue ++ ((id, pkt) ∷ []))
Absent-append j id pkt [] ne h = (ne, tt)
Absent-append j id pkt ((k, p) ∷ queue) ne (other, h) = (other, Absent-append j id pkt queue ne h)

pub Queued-append :
    (free : ℕ → Bool) (id : ℕ) (pkt : Publish) (queue : List (ℕ × Publish))
    → free id ≡ true
    → IsPktId id
    → Queued free queue
    → Queued (without free id) (queue ++ ((id, pkt) ∷ []))
Queued-append free id pkt [] e word h = (ground arith, word, tt, tt)
Queued-append free id pkt ((k, p) ∷ queue) e word (out, word', alone, h) =
    let ne : k ≢ id = (λ q. cc (e, out, q)) in
    (
      ground arith,
      word',
      Absent-append k id pkt queue ne alone,
      Queued-append free id pkt queue e word h,
    )

pub Queued-without :
    (free : ℕ → Bool) (id : ℕ) (queue : List (ℕ × Publish))
    → Queued free queue
    → Queued (without free id) queue
Queued-without free id [] h = tt
Queued-without free id ((k, p) ∷ queue) (out, word, alone, h) =
    (ground arith, word, alone, Queued-without free id queue h)
