-- ===== src/Tests/Source.antt =====
-- The unit tests of src/pktids.rs, src/protocol/publish.rs and src/lib.rs, which the model passes.
use ruq.Base.{
  ℕ, zero, suc, ◌+◌, ◌≡◌, refl, Bool, true, false, ◌&&◌, Option, none, some, [], ◌∷◌, ◌==◌, ok, err,
  panic, out_of_fuel, ◌>>=◌,
}
use ruq.Protocol.{Bytes, Decoded}
use ruq.Protocol.Text.{is_utf8, string_from_mqtt}
use ruq.Protocol.PktId.{pktid_from_mqtt}
use ruq.Protocol.Vbi.{vbi_from_mqtt}
use ruq.Protocol.Qos.{flags_try_from}
use ruq.Protocol.Properties.{properties_from_mqtt}
use ruq.Protocol.Property.{property_from_mqtt}
use ruq.Protocol.Publish.{Payload, string, bytes, publish_from_mqtt, says_utf8}
use ruq.PktIds
use ruq.PktIds.{PktIds, Run, next_id, return_id, new_with_max}

-- `assert!` and `assert_eq!`: a failure is a panic.
assert : Bool → Run (Unit {0})
assert true = ok tt
assert false = panic

same_number : Option ℕ → Option ℕ → Bool
same_number none none = true
same_number (some a) (some b) = a == b
same_number _ _ = false

same_bytes : Bytes → Bytes → Bool
same_bytes [] [] = true
same_bytes (a ∷ as') (b ∷ bs) = a == b && same_bytes as' bs
same_bytes _ _ = false

-- `assert_eq!(pktids.next_id().map(PktId::get), expected)`.
expect_next : Option ℕ → PktIds → Run PktIds
unfolding assert same_number
expect_next expected pktids = do
  (id, pktids') ← next_id pktids
  _ ← assert (same_number id expected)
  ok pktids'

-- The `for` loop over `n` identifiers from `i` on.
expect_from : ℕ → ℕ → PktIds → Run PktIds
unfolding expect_next
expect_from zero i pktids = ok pktids
expect_from (suc n) i pktids = do
  pktids' ← expect_next (some i) pktids
  expect_from n (i + 1) pktids'

fetch_ids : Run (Unit {0})
unfolding expect_next
fetch_ids = do s ← expect_next (some 1) PktIds.new; s ← expect_next (some 2) s; ok tt

fetch_ids_passes : fetch_ids ≡ ok tt
unfolding fetch_ids PktIds.new new_with_max next_id
fetch_ids_passes = refl

fetch_ids_exhausted : Run (Unit {0})
unfolding expect_next
fetch_ids_exhausted = do
  s ← expect_next (some 1) (new_with_max 5)
  s ← expect_next (some 2) s
  s ← expect_next (some 3) s
  s ← expect_next (some 4) s
  s ← expect_next (some 5) s
  s ← expect_next none s
  s ← expect_next none s
  ok tt

fetch_ids_exhausted_passes : fetch_ids_exhausted ≡ ok tt
unfolding fetch_ids_exhausted new_with_max next_id
fetch_ids_exhausted_passes = refl

return_ids : Run (Unit {0})
unfolding expect_next expect_from
return_ids = do
  s ← expect_from 9 1 (new_with_max 12)
  s ← return_id 3 s
  s ← return_id 4 s
  s ← expect_next (some 3) s
  s ← expect_next (some 4) s
  s ← return_id 3 s
  s ← return_id 4 s
  s ← return_id 1 s
  s ← expect_next (some 1) s
  s ← expect_next (some 3) s
  s ← expect_next (some 4) s
  s ← expect_next (some 10) s
  ok tt

return_ids_passes : return_ids ≡ ok tt
unfolding return_ids new_with_max next_id return_id PktIds.maybe_extend_next_node PktIds.vacant_slot
    PktIds.maybe_extend_prev_node
return_ids_passes = refl

return_ids2 : Run (Unit {0})
unfolding expect_next expect_from
return_ids2 = do
  s ← expect_from 9 1 (new_with_max 12)
  s ← return_id 1 s
  s ← return_id 3 s
  s ← return_id 4 s
  s ← expect_next (some 1) s
  s ← expect_next (some 3) s
  s ← expect_next (some 4) s
  s ← expect_next (some 10) s
  ok tt

return_ids2_passes : return_ids2 ≡ ok tt
unfolding return_ids2 new_with_max next_id return_id PktIds.maybe_extend_next_node
    PktIds.vacant_slot PktIds.maybe_extend_prev_node PktIds.relink
return_ids2_passes = refl

-- `.expect(…)`.
expect : {A : Type 0} → Decoded A → Run (A × ℕ)
expect (ok a) = ok a
expect out_of_fuel = out_of_fuel
expect _ = panic

is_bytes : Bytes → Payload → Bool
unfolding same_bytes
is_bytes expected (bytes b) = same_bytes expected b
is_bytes expected (string s) = false

is_string : Bytes → Payload → Bool
unfolding same_bytes
is_string expected (string s) = same_bytes expected s
is_string expected (bytes b) = false

parse_qos0 : Run (Unit {0})
unfolding assert expect same_number same_bytes is_bytes
parse_qos0 = do
  (r, len) ← expect (publish_from_mqtt (48 ∷ 9 ∷ 0 ∷ 1 ∷ b'q' ∷ 0 ∷ 1 ∷ 2 ∷ 3 ∷ 4 ∷ 5 ∷ []))
  _ ← assert (len == 11)
  _ ← assert (same_number r.pktid none)
  _ ← assert (same_bytes r.topic (b'q' ∷ []))
  assert (is_bytes (1 ∷ 2 ∷ 3 ∷ 4 ∷ 5 ∷ []) r.payload)

parse_qos0_passes : parse_qos0 ≡ ok tt
unfolding parse_qos0 publish_from_mqtt flags_try_from vbi_from_mqtt string_from_mqtt is_utf8
    properties_from_mqtt says_utf8
parse_qos0_passes = refl

parse_qos0_payload_str : Run (Unit {0})
unfolding assert expect same_number same_bytes is_string
parse_qos0_payload_str = do
  (r, len) ← expect (
      publish_from_mqtt
        (48 ∷ 11 ∷ 0 ∷ 1 ∷ b'w' ∷ 2 ∷ 1 ∷ 1 ∷ b'a' ∷ b'c' ∷ b'e' ∷ b'g' ∷ b'z' ∷ []))
  _ ← assert (len == 13)
  _ ← assert (same_number r.pktid none)
  _ ← assert (same_bytes r.topic (b'w' ∷ []))
  assert (is_string (b'a' ∷ b'c' ∷ b'e' ∷ b'g' ∷ b'z' ∷ []) r.payload)

parse_qos0_payload_str_passes : parse_qos0_payload_str ≡ ok tt
unfolding parse_qos0_payload_str publish_from_mqtt flags_try_from vbi_from_mqtt string_from_mqtt
    is_utf8 properties_from_mqtt property_from_mqtt says_utf8
parse_qos0_payload_str_passes = refl

parse_qos1 : Run (Unit {0})
unfolding assert expect same_number same_bytes
parse_qos1 = do
  (r, len) ←
      expect (publish_from_mqtt (50 ∷ 11 ∷ 0 ∷ 1 ∷ b't' ∷ 0 ∷ 10 ∷ 0 ∷ 1 ∷ 2 ∷ 3 ∷ 4 ∷ 5 ∷ []))
  _ ← assert (len == 13)
  _ ← assert (same_number r.pktid (some 10))
  assert (same_bytes r.topic (b't' ∷ []))

parse_qos1_passes : parse_qos1 ≡ ok tt
unfolding parse_qos1 publish_from_mqtt flags_try_from vbi_from_mqtt string_from_mqtt is_utf8
    pktid_from_mqtt properties_from_mqtt says_utf8
parse_qos1_passes = refl

is_err : {A : Type 0} → Decoded A → Bool
is_err (err e) = true
is_err _ = false

parse_invalid_string : Run (Unit {0})
unfolding assert is_err
parse_invalid_string =
    assert (is_err (string_from_mqtt (6 ∷ 0 ∷ b'f' ∷ b'o' ∷ b'o' ∷ b'b' ∷ b'a' ∷ b'r' ∷ [])))

parse_invalid_string_passes : parse_invalid_string ≡ ok tt
unfolding parse_invalid_string string_from_mqtt
parse_invalid_string_passes = refl
