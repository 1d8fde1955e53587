-- ===== src/Server/Short.antt =====
-- The decoders of src/protocol/puback.rs and disconnect.rs on the packets that a server sends, which
-- may leave out the reason and the properties.
use ruq.Base.{
  none, length-append, ℕ, List, ◌+◌, ◌^◌, ◌<◌, ◌≤◌, ◌≡◌, refl, true, false, [], ◌∷◌, ◌++◌, arith,
  length, ltb, append-nil, At-next, slice_from-At, bind_step, else_step, then_step, lt→ltb,
  le→not_ltb, ◌==◌,
}
use ruq.Protocol.{Bytes}
use ruq.Protocol.Text.{u16_to_be}
use ruq.Protocol.PktId.{IsPktId}
use ruq.Protocol.Vbi.{vbi_to_mqtt, vbi_from_mqtt}
use ruq.Protocol.Frame.{frame}
use ruq.Protocol.Frame.Read.{index-At, At-buf, header_step, not_short}
use ruq.Protocol.Reason.Puback.{
  PubackReason, success, puback_reason_to_u8, puback_reason_try_from, puback_reason_try_from-to_u8,
}
use ruq.Protocol.Reason.Disconnect.{
  DisconnectReason, normal, disconnect_reason_to_u8, disconnect_reason_try_from-to_u8,
}
use ruq.Protocol.Ack.Puback.{no_properties, puback_from_mqtt, puback_properties_from_mqtt}
use ruq.Protocol.Disconnect.Laws.{
  AreServerTexts, disconnect_properties_from-to, disconnect_properties_long,
}
use ruq.Protocol.Disconnect.{
  disconnect_properties_to_mqtt, DisconnectProperty, disconnect_from_mqtt,
}
use ruq.Protocol.Ack.Puback.Pairs.{pair, behind_length, length-pair, puback_properties_from-pair}
use ruq.Protocol.Properties.Laws.{IsText}
use ruq.Server.Acks.{Finds, pktid_found}

-- PUBACK with the identifier alone: the reason is success.
pub puback_from-id :
    (id : ℕ)
    → IsPktId id
    → Finds
        (puback_from_mqtt (frame 0x40 (u16_to_be id)))
        (record { properties = no_properties; pktid = id; reason = success })
unfolding puback_from_mqtt puback_reason_try_from
puback_from-id id word =
    let buf = u16_to_be id in
    let fits : length buf < 2 ^ 28 = omega arith in
    (
      _,
      header_step 0x40 buf fits _ (
          else_step _ _ _ (not_short 0x40 buf fits) (
            bind_step _ _ (slice_from-At (At-buf 0x40 buf fits))
              (bind_step _ _ (rw append-nil at (pktid_found id [] word)) refl))),
    )

-- PUBACK with the identifier and a reason.
pub puback_from-reason :
    (id : ℕ) (reason : PubackReason)
    → IsPktId id
    → Finds
        (puback_from_mqtt (frame 0x40 (u16_to_be id ++ (puback_reason_to_u8 reason ∷ []))))
        (record { properties = no_properties; pktid = id; reason = reason })
unfolding puback_from_mqtt
puback_from-reason id reason word =
    let r = puback_reason_to_u8 reason in
    let buf = u16_to_be id ++ (r ∷ []) in
    let k = 1 + length (vbi_to_mqtt (length buf)) in
    let fits : length buf < 2 ^ 28 = omega arith in
    let at_id = At-buf 0x40 buf fits in
    let at_reason = At-next (u16_to_be id) (r ∷ []) (k + 2) at_id refl in
    (
      _,
      header_step 0x40 buf fits _ (
          else_step _ _ _ (not_short 0x40 buf fits) (
            bind_step _ _ (slice_from-At at_id) (
              bind_step _ _ (pktid_found id (r ∷ []) word) (
                bind_step _ _
                  (bind_step _ _ (index-At r [] at_reason)
                    (bind_step _ _ (puback_reason_try_from-to_u8 reason) refl))
                  refl)))),
    )

-- PUBACK with the identifier, a reason, and an empty list of properties.
pub puback_from-full :
    (id : ℕ) (reason : PubackReason)
    → IsPktId id
    → Finds
        (puback_from_mqtt (frame 0x40 (u16_to_be id ++ (puback_reason_to_u8 reason ∷ 0 ∷ []))))
        (record { properties = no_properties; pktid = id; reason = reason })
unfolding puback_from_mqtt puback_properties_from_mqtt vbi_from_mqtt
puback_from-full id reason word =
    let r = puback_reason_to_u8 reason in
    let buf = u16_to_be id ++ (r ∷ 0 ∷ []) in
    let k = 1 + length (vbi_to_mqtt (length buf)) in
    let fits : length buf < 2 ^ 28 = omega arith in
    let at_id = At-buf 0x40 buf fits in
    let at_reason = At-next (u16_to_be id) (r ∷ 0 ∷ []) (k + 2) at_id refl in
    let at_props = At-next (r ∷ []) (0 ∷ []) (k + 2 + 1) at_reason (omega arith) in
    (
      _,
      header_step 0x40 buf fits _ (
          else_step _ _ _ (not_short 0x40 buf fits) (
            bind_step _ _ (slice_from-At at_id) (
              bind_step _ _ (pktid_found id (r ∷ 0 ∷ []) word) (
                bind_step _ _
                  (bind_step _ _ (index-At r (0 ∷ []) at_reason)
                    (bind_step _ _ (puback_reason_try_from-to_u8 reason) refl))
                  (bind_step _ _ (bind_step _ _ (slice_from-At at_props) refl) refl))))),
    )

-- PUBACK with the identifier, a reason, and one user property.
pub puback_from-pair :
    (id : ℕ) (reason : PubackReason) (k v : Bytes)
    → IsPktId id
    → IsText k
    → IsText v
    → length (u16_to_be id ++ (puback_reason_to_u8 reason ∷ behind_length (pair k v))) < 2 ^ 28
    → Finds
        (puback_from_mqtt
          (frame 0x40 (u16_to_be id ++ (puback_reason_to_u8 reason ∷ behind_length (pair k v)))))
        (record {
          properties = record { reason_string = none; user_properties = (k, v) ∷ [] };
          pktid = id;
          reason = reason;
        })
unfolding puback_from_mqtt
puback_from-pair id reason k v word hk hv fits =
    let r = puback_reason_to_u8 reason in
    let props = behind_length (pair k v) in
    let buf = u16_to_be id ++ (r ∷ props) in
    let n = length buf in
    let start = 1 + length (vbi_to_mqtt n) in
    let in_props : length props ≡ length (vbi_to_mqtt (length (pair k v))) + length (pair k v) =
      length-append (vbi_to_mqtt (length (pair k v))) (pair k v) in
    let at_id = At-buf 0x40 buf fits in
    let at_reason = At-next (u16_to_be id) (r ∷ props) (start + 2) at_id refl in
    let at_props = At-next (r ∷ []) props (start + 2 + 1) at_reason (omega arith) in
    let with_reason : n == 2 ≡ false = ground (arith, in_props, length-pair k v) in
    let long : ltb n 4 ≡ false = le→not_ltb _ _ (omega (arith, in_props, length-pair k v)) in
    (
      _,
      header_step 0x40 buf fits _ (
          else_step _ _ _ (not_short 0x40 buf fits) (
            bind_step _ _ (slice_from-At at_id) (
              bind_step _ _ (pktid_found id (r ∷ props) word) (
                bind_step _ _
                  (else_step _ _ _ with_reason (
                    bind_step _ _ (index-At r props at_reason)
                      (bind_step _ _ (puback_reason_try_from-to_u8 reason) refl)))
                  (bind_step _ _
                    (else_step _ _ _ long (
                      bind_step _ _ (slice_from-At at_props) (
                        bind_step _ _ (rw append-nil at (puback_properties_from-pair k v [] hk hv))
                          refl)))
                    refl))))),
    )

-- DISCONNECT without a reason, which is the normal one.
pub disconnect_from-none :
    Finds (disconnect_from_mqtt (frame 0xe0 [])) (record { reason = normal; properties = [] })
unfolding disconnect_from_mqtt frame vbi_to_mqtt vbi_from_mqtt
disconnect_from-none = (_, refl)

-- DISCONNECT with a reason and at most two bytes behind it, which are not looked at.
pub disconnect_from-reason :
    (reason : DisconnectReason) (rest : Bytes)
    → length rest ≤ 2
    → Finds
        (disconnect_from_mqtt (frame 0xe0 (disconnect_reason_to_u8 reason ∷ rest)))
        (record { reason = reason; properties = [] })
unfolding disconnect_from_mqtt
disconnect_from-reason reason rest few =
    let r = disconnect_reason_to_u8 reason in
    let buf = r ∷ rest in
    let fits : length buf < 2 ^ 28 = omega arith in
    let at_reason = At-buf 0xe0 buf fits in
    let some_left : length buf == 0 ≡ false = ground arith in
    let short : ltb (length buf) 4 ≡ true = lt→ltb _ _ (omega arith) in
    (
      _,
      header_step 0xe0 buf fits _ (
          else_step _ _ _ (not_short 0xe0 buf fits) (
            bind_step _ _
              (else_step _ _ _ some_left (
                bind_step _ _ (index-At r rest at_reason)
                  (bind_step _ _ (disconnect_reason_try_from-to_u8 reason) refl)))
              (bind_step _ _ (then_step _ _ _ short refl) refl))),
    )

-- DISCONNECT with a reason and properties.
pub disconnect_from-full :
    (reason : DisconnectReason) (p : DisconnectProperty) (ps : List DisconnectProperty)
    → AreServerTexts (p ∷ ps)
    → length (disconnect_reason_to_u8 reason ∷ disconnect_properties_to_mqtt (p ∷ ps)) < 2 ^ 28
    → Finds
        (disconnect_from_mqtt
          (frame 0xe0 (disconnect_reason_to_u8 reason ∷ disconnect_properties_to_mqtt (p ∷ ps))))
        (record { reason = reason; properties = p ∷ ps })
unfolding disconnect_from_mqtt
disconnect_from-full reason p ps text fits =
    let r = disconnect_reason_to_u8 reason in
    let props = disconnect_properties_to_mqtt (p ∷ ps) in
    let buf = r ∷ props in
    let k = 1 + length (vbi_to_mqtt (length buf)) in
    let at_reason = At-buf 0xe0 buf fits in
    let at_props = At-next (r ∷ []) props (k + 1) at_reason (omega arith) in
    let some_left : length buf == 0 ≡ false = ground arith in
    let long : ltb (length buf) 4 ≡ false =
      le→not_ltb _ _ (omega (arith, disconnect_properties_long p ps text)) in
    (
      _,
      header_step 0xe0 buf fits _ (
          else_step _ _ _ (not_short 0xe0 buf fits) (
            bind_step _ _
              (else_step _ _ _ some_left (
                bind_step _ _ (index-At r props at_reason)
                  (bind_step _ _ (disconnect_reason_try_from-to_u8 reason) refl)))
              (bind_step _ _
                (else_step _ _ _ long (
                  bind_step _ _ (slice_from-At at_props) (
                    bind_step _ _
                      (rw append-nil at (disconnect_properties_from-to (p ∷ ps) text [])) refl)))
                refl))),
    )
