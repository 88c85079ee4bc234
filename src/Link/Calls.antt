-- ===== src/Link/Calls.antt =====
-- Several calls of `TcpConnection.send`, and of `_on_readable`.
use fedoralink.Prelude.{ℕ, suc, ◌+◌, ◌≤◌, ◌≡◌, refl, ap, List, [], ◌∷◌, length}
use fedoralink.Json.{obj, Fields}
use fedoralink.Framing.{Bytes}
use fedoralink.BigEndian.{digits_be}
use fedoralink.Protocol.{JsonText, serialize}
use fedoralink.Protocol.RoundTrip.{IsPacket}
use fedoralink.Session.{Aead, max_record_bytes}
use fedoralink.Link.{Connection, Sent, send, Arrival, fine, next_arrival, on_readable, chunk}

-- several calls of `send`, each with the socket's answers
abbrev pub Calls : Type 0
Calls = List (Fields × List Sent)

unfoldable pub send_all : JsonText → Aead → Calls → Connection → Connection
send_all text aead [] c = c
send_all text aead ((packet, answers) ∷ calls) c =
    send_all text aead calls (send text aead answers (obj packet) c)

abbrev pub packets_of : Calls → List Fields
packets_of [] = []
packets_of ((packet, _) ∷ calls) = packet ∷ packets_of calls

pub length-packets_of : (calls : Calls) → length (packets_of calls) ≡ length calls
length-packets_of [] = refl
length-packets_of (c ∷ calls) = ap suc (length-packets_of calls)

-- several calls of `_on_readable`, until one fails
unfoldable pub receive : JsonText → Aead → List Bytes → Connection → Arrival
receive text aead [] c = record { link = c; delivered = []; status = fine }
receive text aead (bytes ∷ more) c =
    let a = on_readable text aead c (chunk bytes) in
    next_arrival a (receive text aead more) a.status

module _ (text : JsonText) (aead : Aead) where
  -- the sealed records of packets, from a counter on
  unfoldable pub sealed_from : Bytes → ℕ → List Fields → List Bytes
  sealed_from key n [] = []
  sealed_from key n (p ∷ ps) =
      aead.encrypt key (digits_be 12 n) (serialize text (obj p)) ∷ sealed_from key (n + 1) ps

  -- A packet that fits a line and a record.
  pub record IsSendable (packet : Fields) : Type 0 where
    pub packet_fine : IsPacket text packet
    pub fits : length (serialize text (obj packet)) + 16 ≤ max_record_bytes
