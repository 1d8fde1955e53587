-- ===== src/EventLoop/Refines/Calls.antt =====
-- The calls that the arms of a round in src/lib.rs share, and what the machine of EventLoop/Spec allows
-- behind them.
use ruq.Base.{
  ℕ, ◌≡◌, ◌≢◌, ◌≤◌, refl, Bool, true, false, Option, none, some, ok, err, panic, out_of_fuel, ◌>>=◌,
  List, [], ◌∷◌, arith, if◌then◌else◌,
}
use ruq.Protocol.{Bytes, IoError}
use ruq.Protocol.Packet.{Packet}
use ruq.PktIds.{PktIds, Run, next_id}
use ruq.PktIds.Chain.{Holds}
use ruq.PktIds.Next.{without, Answers, handed_out, used_up, overflowed, next_id-Answers}
use ruq.PktIds.Return.{with_id, return_id-Holds}
use ruq.EventLoop.{Session, Output, wrote, Event, go, Round, send, give_back, fresh}
use ruq.EventLoop.Invariant.{InUse}
use ruq.EventLoop.Spec.{View, HandsOut, Encodes, Writes, Fails, Panics, Allowed}
use ruq.EventLoop.InFlight.{IsPktId-of_free}
use ruq.PktIds.Overflow.{next_id_overflows}

module _ (v : View) (w : Option IoError) (e : Event) where
  pub Allowed-send :
      (pkt : Packet) (b : Bytes) (f : List Output → Round)
      → Writes v e
      → Encodes pkt b
      → (w ≡ none → Allowed v w e (f (wrote b ∷ [])))
      → Allowed v w e (send w pkt >>= f)
  unfolding send
  Allowed-send pkt b f writes enc k = sent w refl
    where
      sent : (o : Option IoError) → w ≡ o → Allowed v w e (send o pkt >>= f)
      sent none q = rw (send, enc) (k q)
      sent (some x) q = rw (send, enc) (Fails.socket q writes)

  -- The identifier 65535 is never handed out.
  last_kept :
      (s : Session) (id : ℕ) (p : PktIds)
      → Holds 65535 v.free s.pktids
      → next_id s.pktids ≡ ok (some id, p)
      → v.free id ≡ true
      → ((j : ℕ) → v.free j ≡ true → id ≤ j)
      → id ≢ 65535
  last_kept s id p held run out least last =
      let only : (j : ℕ) → v.free j ≡ true → j ≡ 65535 = λ j q.
        let (_, high) = IsPktId-of_free v.free s.pktids j held q in omega (arith, least j q) in
      let stops = next_id_overflows s.pktids v.free held only in cc (run, stops)

  Allowed-answer :
      (s : Session) (f : ℕ × PktIds → Round) (r : Run (Option ℕ × PktIds))
      → next_id s.pktids ≡ r
      → Answers 65535 v.free r
      → Holds 65535 v.free s.pktids
      → (((j : ℕ) → v.free j ≡ true → j ≡ 65535) → Panics v e)
      → ((id : ℕ) (p : PktIds)
          → HandsOut v.free id
          → Holds 65535 (without v.free id) p
          → Allowed v w e (f (id, p)))
      → Allowed v w e (fresh s >>= f)
  unfolding fresh
  Allowed-answer s f (ok (some id, p)) run (handed_out out least h) held no_id k =
      rw (run, fresh)
        (k id p
          (record {
            least = record { out = out; least = least };
            below = last_kept s id p held run out least;
          })
          h)
  Allowed-answer s f (ok (none, p)) run (used_up empty h) held no_id k =
      rw (run, fresh) (no_id (λ j q. cc (empty j, q)))
  Allowed-answer s f panic run (overflowed last) held no_id k = rw (run, fresh) (no_id last)
  Allowed-answer s f (err x) run _ held no_id k = elim x [ ]
  Allowed-answer s f out_of_fuel run x held no_id k = elim x [ ]

  pub Allowed-fresh :
      (s : Session) (f : ℕ × PktIds → Round)
      → Holds 65535 v.free s.pktids
      → (((j : ℕ) → v.free j ≡ true → j ≡ 65535) → Panics v e)
      → ((id : ℕ) (p : PktIds)
          → HandsOut v.free id
          → Holds 65535 (without v.free id) p
          → Allowed v w e (f (id, p)))
      → Allowed v w e (fresh s >>= f)
  Allowed-fresh s f held no_id k =
      Allowed-answer s f _ refl (next_id-Answers 65535 v.free s.pktids held) held no_id k

  -- The allocator takes an identifier back.
  pub Allowed-give_back :
      (id : ℕ) (s : Session) (out : List Output)
      → Holds 65535 v.free s.pktids
      → InUse v.free id
      → ((p : PktIds)
          → Holds 65535 (with_id v.free id) p
          → Allowed v w e (ok (go (record s { pktids = p }) out)))
      → Allowed v w e (give_back id s out)
  unfolding give_back
  Allowed-give_back id s out held (word, used) k =
      let (p, run, h) =
        return_id-Holds 65535 v.free s.pktids id held (omega arith) (omega arith) used in
      rw (run) (k p h)

  pub Allowed-if :
      (b : Bool) (x y : Round)
      → (b ≡ true → Allowed v w e x)
      → (b ≡ false → Allowed v w e y)
      → Allowed v w e (if b then x else y)
  Allowed-if true x y h k = h refl
  Allowed-if false x y h k = k refl
