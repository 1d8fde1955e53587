-- ===== src/Server/Stream.antt =====
-- A stream of packets through `decode` of src/mqtt_codec.rs, however it is cut into chunks.
use ruq.Base.{
  ℕ, ◌^◌, ◌<◌, ◌≡◌, refl, sym, ap, none, some, List, [], ◌∷◌, ◌++◌, length, append_assoc,
  append-nil, ok, subst, inl, inr, ◌⊎◌,
}
use ruq.Protocol.{Bytes}
use ruq.Protocol.Frame.{frame}
use ruq.Protocol.Packet.{Packet}
use ruq.Codec.{decode}
use ruq.Codec.Append.{decode-append}
use ruq.Server.Packets.{Laid, decode-Laid, decode-Laid_part}

-- Calls of `decode` on a buffer, one after the other: the packets that they answer, up to a buffer
-- on which a call is still to be made.
pub data Yields : Bytes → List Packet → Bytes → Type 0 where
  stop : {src : Bytes} → Yields src [] src
  next :
      {src rest left : Bytes} {p : Packet} {ps : List Packet}
      → decode src ≡ (ok (some p), rest)
      → Yields rest ps left
      → Yields src (p ∷ ps) left

-- Chunks of bytes arrive; after each, `decode` is called until it asks for more.
pub data Feeds : Bytes → List Bytes → List Packet → Bytes → Type 0 where
  end : {buf : Bytes} → Feeds buf [] [] buf
  chunk :
      {buf mid left : Bytes} {chunks : List Bytes} {ps qs : List Packet} (new : Bytes)
      → Yields (buf ++ new) ps mid
      → decode mid ≡ (ok none, mid)
      → Feeds mid chunks qs left
      → Feeds buf (new ∷ chunks) (ps ++ qs) left

-- All the bytes of the chunks.
abbrev pub joined : List Bytes → Bytes
joined [] = []
joined (c ∷ cs) = c ++ joined cs

-- The bytes of packets that a server sends, one after the other.
pub data Sends : List Packet → Bytes → Type 0 where
  silent : Sends [] []
  sends :
      {p : Packet} {ps : List Packet} {first : ℕ} {buf bytes : Bytes}
      → Laid p first buf
      → length buf < 2 ^ 28
      → Sends ps bytes
      → Sends (p ∷ ps) (frame first buf ++ bytes)

Yields-append :
    (src left more : Bytes) (ps : List Packet)
    → Yields src ps left
    → Yields (src ++ more) ps (left ++ more)
Yields-append src left more [] stop = stop
Yields-append src left more (p ∷ ps) (next {rest = rest} e y) =
    next (decode-append src more (ok (some p)) rest (λ w. cc w) e)
      (Yields-append rest left more ps y)

Yields-trans :
    (src mid left : Bytes) (ps qs : List Packet)
    → Yields src ps mid
    → Yields mid qs left
    → Yields src (ps ++ qs) left
Yields-trans src mid left [] qs stop y = y
Yields-trans src mid left (p ∷ ps) qs (next e x) y = next e (Yields-trans _ mid left ps qs x y)

-- Reading chunk by chunk yields what reading all the bytes at once does.
Feeds-Yields :
    (buf left : Bytes) (chunks : List Bytes) (ps : List Packet)
    → Feeds buf chunks ps left
    → Yields (buf ++ joined chunks) ps left
Feeds-Yields buf left [] ps end = rw (append-nil) stop
Feeds-Yields buf left (c ∷ cs) ps (chunk {mid = mid} {ps = now} {qs = later} new y waits more) =
    rw (← append_assoc buf c (joined cs)) (
      Yields-trans (buf ++ c ++ joined cs) (mid ++ joined cs) left now later
        (Yields-append (buf ++ c) mid (joined cs) now y) (Feeds-Yields mid left cs later more))

-- `decode` is a function: where it asks for more in the end, the packets are determined.
Yields-unique :
    (src l m : Bytes) (ps qs : List Packet)
    → Yields src ps l
    → decode l ≡ (ok none, l)
    → Yields src qs m
    → decode m ≡ (ok none, m)
    → (ps ≡ qs) × (l ≡ m)
Yields-unique src l m [] [] stop wl stop wm = (refl, refl)
Yields-unique src l m [] (q ∷ qs) stop wl (next e y) wm = cc (wl, e)
Yields-unique src l m (p ∷ ps) [] (next e y) wl stop wm = cc (wm, e)
Yields-unique src l m (p ∷ ps) (q ∷ qs) (next {rest = r} e y) wl (next {rest = r'} e' y') wm =
    let same : r' ≡ r = cc (e, e') in
    let head : p ≡ q = cc (e, e') in
    let (tail, left) = Yields-unique r l m ps qs y wl (subst (λ b. Yields b qs m) same y') wm in
    (cc (head, tail), left)

Sends-Yields : (ps : List Packet) (bytes : Bytes) → Sends ps bytes → Yields bytes ps []
Sends-Yields [] bytes silent = stop
Sends-Yields (p ∷ ps) bytes (sends {first = first} {buf = buf} {bytes = rest} laid fits more) =
    next (decode-Laid p first buf rest laid fits) (Sends-Yields ps rest more)

decode_nothing : decode [] ≡ (ok none, [])
unfolding decode
decode_nothing = refl

-- Nothing else can come out: whatever calls of `decode` after each chunk yield, up to buffers on which
-- it asks for more, from the bytes of a server's packets, is these packets in their order, and the
-- buffer is empty in the end.
pub Feeds-Sends :
    (ps qs : List Packet) (chunks : List Bytes) (left : Bytes)
    → Sends ps (joined chunks)
    → Feeds [] chunks qs left
    → decode left ≡ (ok none, left)
    → (qs ≡ ps) × (left ≡ [])
Feeds-Sends ps qs chunks left sent fed waits =
    Yields-unique (joined chunks) left [] qs ps (Feeds-Yields [] left chunks qs fed) waits
      (Sends-Yields ps (joined chunks) sent) decode_nothing

-- Two ways to cut a list: one front is a part of the other.
split_append :
    (xs ys front back : Bytes)
    → xs ++ ys ≡ front ++ back
    → ((t : Bytes) × (front ≡ xs ++ t) × (ys ≡ t ++ back))
      ⊎ ((x : ℕ) × (t : Bytes) × (xs ≡ front ++ (x ∷ t)))
split_append [] ys front back e = inl (front, refl, e)
split_append (x ∷ xs) ys [] back e = inr (x, xs, refl)
split_append (x ∷ xs) ys (y ∷ front) back e =
    let same : x ≡ y = cc e in
    elim (split_append xs ys front back (cc e)) [
      | inl (t, a, b) ↦ inl (t, cc (same, a), b)
      | inr (z, t, a) ↦ inr (z, t, cc (same, a))
    ]

-- What one chunk brings: the packets that are complete, and a buffer that waits for the others.
record Chunk (ps : List Packet) (front back : Bytes) : Type 0 where
  now : List Packet
  later : List Packet
  mid : Bytes
  parts : ps ≡ now ++ later
  yields : Yields front now mid
  waits : decode mid ≡ (ok none, mid)
  sent : Sends later (mid ++ back)

Chunk-read :
    (ps : List Packet) (bytes front back : Bytes)
    → Sends ps bytes
    → bytes ≡ front ++ back
    → Chunk ps front back
Chunk-read [] bytes [] back silent e = record {
  now = [];
  later = [];
  mid = [];
  parts = refl;
  yields = stop;
  waits = decode_nothing;
  sent = subst (Sends []) e silent;
}
Chunk-read [] bytes (x ∷ front) back silent e = absurd (cc e)
Chunk-read (p ∷ ps) bytes front back
      (sends {first = first} {buf = buf} {bytes = rest} laid fits more) e =
    elim (split_append (frame first buf) rest front back e) [
      | inl (t, whole, tail) ↦
          let c = Chunk-read ps rest t back more tail in
          record {
            now = p ∷ c.now;
            later = c.later;
            mid = c.mid;
            parts = ap (λ l. p ∷ l) c.parts;
            yields = rw whole (next (decode-Laid p first buf t laid fits) c.yields);
            waits = c.waits;
            sent = c.sent;
          }
      | inr (x, t, part) ↦ record {
        now = [];
        later = p ∷ ps;
        mid = front;
        parts = refl;
        yields = stop;
        waits = decode-Laid_part p first buf front t x laid fits part;
        sent = subst (Sends (p ∷ ps)) e (sends laid fits more);
      }
    ]

-- A buffer that is a whole stream of packets and waits is empty, and no packet is left.
nothing_left :
    (ps : List Packet) (buf : Bytes)
    → Sends ps buf
    → decode buf ≡ (ok none, buf)
    → (ps ≡ []) × (buf ≡ [])
nothing_left [] buf silent w = (refl, refl)
nothing_left (p ∷ ps) buf (sends {first = first} {buf = b} {bytes = rest} laid fits more) w =
    cc (decode-Laid p first b rest laid fits, w)

Feeds-from :
    (ps : List Packet) (buf : Bytes) (chunks : List Bytes)
    → Sends ps (buf ++ joined chunks)
    → decode buf ≡ (ok none, buf)
    → Feeds buf chunks ps []
Feeds-from ps buf [] sent w =
    let (none_left, empty) = nothing_left ps buf (rw append-nil at sent) w in
    rw (none_left, empty) end
Feeds-from ps buf (c ∷ cs) sent w =
    let k =
      Chunk-read ps (buf ++ joined (c ∷ cs)) (buf ++ c) (joined cs) sent
        (sym (append_assoc buf c (joined cs))) in
    rw k.parts (chunk c k.yields k.waits (Feeds-from k.later k.mid cs k.sent k.waits))

-- However the bytes of a server's packets are cut into chunks, calling `decode` after each chunk
-- until it asks for more yields these packets in their order, and the buffer ends empty.
pub Sends-Feeds :
    (ps : List Packet) (chunks : List Bytes) → Sends ps (joined chunks) → Feeds [] chunks ps []
Sends-Feeds ps chunks sent = Feeds-from ps [] chunks sent decode_nothing
