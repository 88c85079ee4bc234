-- ===== src/Link/Sending.antt =====
-- What several calls of `TcpConnection.send` put on the wire.
use fedoralink.Prelude.{
  ◌+◌, ◌<◌, ◌≤◌, ◌≡◌, refl, ap, ◌∙◌, sym, true, false, List, [], ◌∷◌, ◌++◌, length,
  append_assoc_lem, append-nil, is_empty, arith, Bool-cases, inl, inr,
}
use fedoralink.Json.{obj, Fields}
use fedoralink.Framing.Codec.{encode_all, All}
use fedoralink.BigEndian.{digits_be}
use fedoralink.Protocol.{JsonText, serialize}
use fedoralink.Session.{Aead}
use fedoralink.Session.Records.{frame_record}
use fedoralink.Link.{Connection, Sent, took, blocked, failed, flush, send}
use fedoralink.Link.Outbox.{written-flush}
use fedoralink.Link.Opening.{IsAead, counter_limit, seal_lem}
use fedoralink.Link.Calls.{Calls, send_all, packets_of, sealed_from, IsSendable}

module _ (text : JsonText) (aead : Aead) (law : IsAead aead) where
  crypto-flush : (answers : List Sent) (c : Connection) → (flush answers c).crypto ≡ c.crypto
  unfolding flush
  crypto-flush [] c = ground arith
  crypto-flush (blocked ∷ answers) c = ground arith
  crypto-flush (failed ∷ answers) c = ground arith
  crypto-flush (took n ∷ answers) c = elim (Bool-cases (is_empty c.outbox)) [
    | inl e ↦ rw e refl
    | inr e ↦ rw e (crypto-flush answers _)
  ]

  -- one call of `send` on an open connection
  sends :
      (answers : List Sent) (packet : Fields) (c : Connection)
      → c.closed ≡ false
      → IsSendable text aead packet
      → c.crypto.send_counter < counter_limit
      → ((send text aead answers (obj packet) c).written
            ++ (send text aead answers (obj packet) c).outbox
          ≡ (c.written ++ c.outbox)
            ++ frame_record (
                aead.encrypt c.crypto.send_key
                  (digits_be 12 c.crypto.send_counter)
                  (serialize text (obj packet))))
        × ((send text aead answers (obj packet) c).crypto
            ≡ record c.crypto { send_counter = c.crypto.send_counter + 1 })
  unfolding send
  sends answers packet c h s k =
      let line = serialize text (obj packet) in
      let t = law.tagged c.crypto.send_key (digits_be 12 c.crypto.send_counter) line in
      rw (h, seal_lem aead c.crypto line k (omega (arith, s.fits)))
        (
          written-flush answers _ ∙ sym (append_assoc_lem c.written c.outbox _),
          crypto-flush answers _,
        )

  send_closed :
      (answers : List Sent) (packet : Fields) (c : Connection)
      → c.closed ≡ true
      → send text aead answers (obj packet) c ≡ c
  unfolding send
  send_closed answers packet c h = rw h refl

  send_all_closed :
      (calls : Calls) (c : Connection) → c.closed ≡ true → send_all text aead calls c ≡ c
  unfolding send_all
  send_all_closed [] c h = refl
  send_all_closed ((packet, answers) ∷ calls) c h =
      rw (send_closed answers packet c h) (send_all_closed calls c h)

  -- the stream that the calls put on the wire, or will
  pub written-send_all :
      (calls : Calls) (c : Connection)
      → (send_all text aead calls c).closed ≡ false
      → All (IsSendable text aead) (packets_of calls)
      → c.crypto.send_counter + length calls ≤ counter_limit
      → (send_all text aead calls c).written ++ (send_all text aead calls c).outbox
        ≡ (c.written ++ c.outbox)
          ++ encode_all frame_record
              (sealed_from text aead c.crypto.send_key c.crypto.send_counter (packets_of calls))
  unfolding send_all sealed_from
  written-send_all [] c h g k = sym (append-nil (c.written ++ c.outbox))
  written-send_all ((packet, answers) ∷ calls) c h g k = elim (Bool-cases c.closed) [
    | inl shut ↦
        let e =
          ap (λ (x : Connection). x.closed) (send_all_closed ((packet, answers) ∷ calls) c shut) in
        cc
    | inr open_now ↦
        let (w, r) = sends answers packet c open_now g.0 (omega arith) in
        written-send_all calls (send text aead answers (obj packet) c) h g.1 (rw r (omega arith))
        ∙ rw (w, r) (append_assoc_lem (c.written ++ c.outbox) _ _)
  ]
