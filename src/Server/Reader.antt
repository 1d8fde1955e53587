-- ===== src/Server/Reader.antt =====
-- What a server makes of the bytes that a client sends, by MQTT 5.0, sections 3.1, 3.8, 3.10, 3.12: a
-- reader of its own, apart from the code of src/protocol.
use ruq.Base.{
  ℕ, zero, suc, ◌+◌, ◌*◌, ◌/◌, ◌%◌, Bool, true, false, ◌&&◌, Option, none, some, List, [], ◌∷◌,
  length, ltb, leb, ◌==◌, if◌then◌else◌, take, drop,
}
use ruq.Protocol.{Bytes}
use ruq.Protocol.Qos.{QoS, at_most_once, at_least_once, exactly_once}

-- A topic filter with its quality of service and its two marks.
pub record Filter : Type 0 where
  pub topic : Bytes
  pub qos : QoS
  pub no_local : Bool
  pub retain_as_published : Bool
  pub retain_handling : ℕ

pub data Request : Type 0 where
  connects : (client_id : Bytes) (keep_alive : ℕ) (clean_start : Bool) → Request
  subscribes : (id : ℕ) → List Filter → Request
  unsubscribes : (id : ℕ) → List Bytes → Request
  pings : Request

infixl 5 ◌>>=◌
abbrev pub ◌>>=◌ : {A B : Type 0} → Option A → (A → Option B) → Option B
none >>= f = none
some a >>= f = f a

-- A variable byte integer of at most `k` bytes, with what follows it.
unfoldable pub read_vbi : ℕ → Bytes → Option (ℕ × Bytes)
read_vbi zero bs = none
read_vbi (suc k) [] = none
read_vbi (suc k) (b ∷ bs) = elim (ltb b 128) [
  | true ↦ some (b, bs)
  | false ↦ (do (n, rest) ← read_vbi k bs; some (b % 128 + 128 * n, rest))
]

-- The next `n` bytes.
unfoldable pub read_bytes : ℕ → Bytes → Option (Bytes × Bytes)
read_bytes n bs = if leb n (length bs) then some (take n bs, drop n bs) else none

unfoldable pub read_u16 : Bytes → Option (ℕ × Bytes)
read_u16 (h ∷ l ∷ rest) = some (h * 256 + l, rest)
read_u16 _ = none

-- Text behind its length.
unfoldable pub read_text : Bytes → Option (Bytes × Bytes)
read_text bs = do (n, rest) ← read_u16 bs; read_bytes n rest

-- The name, the version, and no flag but the one for a clean start; then the keep alive, an empty
-- list of properties and the client identifier, with nothing behind.
unfoldable pub connect_flags : ℕ → Option Bool
connect_flags f = if f == 0 then some false else if f == 2 then some true else none

unfoldable pub same_bytes : Bytes → Bytes → Bool
same_bytes [] [] = true
same_bytes (x ∷ xs) (y ∷ ys) = x == y && same_bytes xs ys
same_bytes _ _ = false

unfoldable pub read_none : Bytes → Option Bytes
read_none bs = do (n, rest) ← read_vbi 4 bs; if n == 0 then some rest else none

-- One byte.
unfoldable pub read_u8 : Bytes → Option (ℕ × Bytes)
read_u8 [] = none
read_u8 (b ∷ rest) = some (b, rest)

unfoldable pub read_name : Bytes → Option Bytes
read_name bs = do
  (name, at_version) ← read_text bs
  (version, rest) ← read_u8 at_version
  if same_bytes name (b'M' ∷ b'Q' ∷ b'T' ∷ b'T' ∷ []) && version == 5 then some rest else none

unfoldable pub all_read : {A : Type 0} → A × Bytes → Option A
all_read (a, []) = some a
all_read (a, b ∷ bs) = none

unfoldable pub read_connect : Bytes → Option Request
read_connect buf = do
  body ← read_name buf
  (flags, at_time) ← read_u8 body
  clean ← connect_flags flags
  (keep_alive, at_props) ← read_u16 at_time
  at_id ← read_none at_props
  (id, rest) ← read_text at_id
  all_read (connects id keep_alive clean, rest)

-- An identifier is not zero.
unfoldable pub read_id : Bytes → Option (ℕ × Bytes)
read_id bs = do (id, rest) ← read_u16 bs; if id == 0 then none else some (id, rest)

unfoldable pub qos_of : ℕ → Option QoS
qos_of n =
    if n == 0
    then some at_most_once
    else if n == 1
    then some at_least_once
    else if n == 2
    then some exactly_once
    else none

-- The options behind a topic filter: two bits, two marks, two bits, and two that are zero.
unfoldable pub filter_of : Bytes → ℕ → Option Filter
filter_of topic o = do
  qos ← qos_of (o % 4)
  if ltb (o / 16) 3
      then some (record {
        topic = topic;
        qos = qos;
        no_local = o / 4 % 2 == 1;
        retain_as_published = o / 8 % 2 == 1;
        retain_handling = o / 16;
      })
      else none

-- One or more of what `read` reads, up to the end; `k` bounds their number.
unfoldable pub read_some : {A : Type 0} → (Bytes → Option (A × Bytes)) → ℕ → Bytes → Option (List A)
read_some read zero bs = none
read_some read (suc k) bs = do
  (a, rest) ← read bs
  elim rest [
    | [] ↦ some (a ∷ [])
    | b ∷ more ↦ (do tail ← read_some read k (b ∷ more); some (a ∷ tail))
  ]

unfoldable pub read_filter : Bytes → Option (Filter × Bytes)
read_filter bs = do
  (topic, at_options) ← read_text bs
  (options, rest) ← read_u8 at_options
  filter ← filter_of topic options
  some (filter, rest)

unfoldable pub read_subscribe : Bytes → Option Request
read_subscribe buf = do
  (id, at_props) ← read_id buf
  at_filters ← read_none at_props
  filters ← read_some read_filter (length buf) at_filters
  some (subscribes id filters)

unfoldable pub read_unsubscribe : Bytes → Option Request
read_unsubscribe buf = do
  (id, at_props) ← read_id buf
  at_topics ← read_none at_props
  topics ← read_some read_text (length buf) at_topics
  some (unsubscribes id topics)

unfoldable pub read_body : ℕ → Bytes → Option Request
read_body first buf =
    if first == 0x10
    then read_connect buf
    else if first == 0x82
    then read_subscribe buf
    else if first == 0xa2
    then read_unsubscribe buf
    else if first == 0xc0
    then all_read (pings, buf)
    else none

-- One packet in front of the bytes, with what follows it.
unfoldable pub read_request : Bytes → Option (Request × Bytes)
read_request bs = do
  (first, at_len) ← read_u8 bs
  (len, at_buf) ← read_vbi 4 at_len
  (buf, rest) ← read_bytes len at_buf
  request ← read_body first buf
  some (request, rest)
