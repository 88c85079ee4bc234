-- ===== src/Link.antt =====
-- One live connection. daemon/fedoralink/tcp.py (`TcpConnection`): sealed records out and in, with
-- the outbox that daemon/fedoralink/transport.py (`Connection`) has too. Each call of the socket
-- is answered by the kernel, and the answers are arguments.
pub mod Outbox
pub mod Opening
pub mod Calls
pub mod Sending
pub mod Delivery
pub mod Bluetooth
use fedoralink.Prelude.{
  ℕ, Bool, true, false, Option, none, some, List, [], ◌∷◌, ◌++◌, take, drop, if◌then◌else◌,
  is_empty,
}
use fedoralink.Json.{Json, Fields}
use fedoralink.Framing.{Bytes, Outcome}
use fedoralink.Protocol.{JsonText, ProtocolError, serialize, feed}
use fedoralink.Session.{
  SessionError, Result, ok, err, raised, Aead, RecordCrypto, new_crypto, seal, open_record,
  feed_records,
}

-- `written` is what the socket has taken so far, and `watching` says that `_out_source` is set.
pub record Connection : Type 0 where
  pub crypto : RecordCrypto
  pub records : Bytes
  pub packets : Bytes
  pub outbox : Bytes
  pub written : Bytes
  pub watching : Bool
  pub closed : Bool

unfoldable pub new_connection : RecordCrypto → Connection
new_connection crypto = record {
  crypto = crypto;
  records = [];
  packets = [];
  outbox = [];
  written = [];
  watching = false;
  closed = false;
}

-- `close`; the call of `_on_close` is the owner's
unfoldable pub close : Connection → Connection
close c = if c.closed then c else record c { closed = true; watching = false }

-- what `sock.send` answers: so many bytes taken, BlockingIOError, or another OSError
pub data Sent : Type 0 where
  took : ℕ → Sent
  blocked failed : Sent

abbrev sent : Connection → ℕ → Connection
sent c n = record c { written = c.written ++ take n c.outbox; outbox = drop n c.outbox }

-- `_flush`, the same in both classes. Behind the last answer the kernel's buffer is full.
unfoldable pub flush : List Sent → Connection → Connection
unfolding close
flush [] c =
    if is_empty c.outbox then record c { watching = false } else record c { watching = true }
flush (took n ∷ answers) c =
    let rest = flush answers (sent c n) in
    if is_empty c.outbox then record c { watching = false } else rest
flush (blocked ∷ _) c =
    if is_empty c.outbox then record c { watching = false } else record c { watching = true }
flush (failed ∷ _) c = if is_empty c.outbox then record c { watching = false } else close c

-- `Connection.send` of transport.py: the serialised packet goes into the outbox as it is
unfoldable pub send_plain : JsonText → List Sent → Json → Connection → Connection
unfolding flush serialize
send_plain text answers packet c =
    if c.closed then c else flush answers (record c { outbox = c.outbox ++ serialize text packet })

abbrev pub queue : List Sent → Connection → Option Bytes × RecordCrypto → Connection
queue answers c (none, crypto) = record c { crypto = crypto }
queue answers c (some framed, crypto) =
    flush answers (record c { crypto = crypto; outbox = c.outbox ++ framed })

-- `TcpConnection.send`. Where `seal` raises, nothing is queued.
unfoldable pub send : JsonText → Aead → List Sent → Json → Connection → Connection
unfolding flush
send text aead answers packet c =
    if c.closed then c else queue answers c (seal aead c.crypto (serialize text packet))

-- How the handling of what arrived ended: well, by a SessionError, which closes the link, or by
-- an exception that nothing catches.
pub data Status : Type 0 where
  fine : Status
  broken : SessionError → Status
  escaped : Status

-- The packets that reached `_on_packet`, in order.
pub record Arrival : Type 0 where
  pub link : Connection
  pub delivered : List Fields
  pub status : Status

-- the packets of one opened record; a ProtocolError is logged, and the rest of the record stays
abbrev pub take_packets : Connection → Outcome Fields ProtocolError → Arrival
take_packets c o = record {
  link = record c { packets = o.buffer };
  delivered = o.items;
  status = fine;
}

abbrev pub take_opened : JsonText → Connection → Result Bytes × RecordCrypto → Arrival
take_opened text c (ok plaintext, crypto) =
    take_packets (record c { crypto = crypto }) (feed text c.packets plaintext)
take_opened text c (err e, crypto) = record {
  link = record c { crypto = crypto };
  delivered = [];
  status = broken e;
}
take_opened text c (raised, crypto) = record {
  link = record c { crypto = crypto };
  delivered = [];
  status = escaped;
}

-- `_handle_record`
unfoldable pub handle_record : JsonText → Aead → Connection → Bytes → Arrival
handle_record text aead c sealed = take_opened text c (open_record aead c.crypto sealed)

abbrev pub next_arrival : Arrival → (Connection → Arrival) → Status → Arrival
next_arrival a k fine = let b = k a.link in record b { delivered = a.delivered ++ b.delivered }
next_arrival a k (broken e) = a
next_arrival a k escaped = a

-- the `for` loop of `_on_readable`
unfoldable pub handle_records : JsonText → Aead → Connection → List Bytes → Arrival
handle_records text aead c [] = record { link = c; delivered = []; status = fine }
handle_records text aead c (r ∷ rs) =
    let a = handle_record text aead c r in
    next_arrival a (λ c'. handle_records text aead c' rs) a.status

abbrev pub end_of_feed : Option SessionError → Arrival → Status → Arrival
end_of_feed none a fine = a
end_of_feed (some e) a fine = record a { link = close a.link; status = broken e }
end_of_feed _ a (broken e) = record a { link = close a.link }
end_of_feed _ a escaped = a

abbrev pub read_chunk : JsonText → Aead → Connection → Outcome Bytes SessionError → Arrival
read_chunk text aead c o =
    let a = handle_records text aead (record c { records = o.buffer }) o.items in
    end_of_feed o.error a a.status

-- what `_on_readable` finds: a hang-up, a `recv` that would block or fails, or bytes
pub data Readable : Type 0 where
  hung_up would_block read_failed : Readable
  chunk : Bytes → Readable

abbrev hang_up : Connection → Arrival
hang_up c = record { link = close c; delivered = []; status = fine }

-- `_on_readable`; an empty chunk is the end of the stream
unfoldable pub on_readable : JsonText → Aead → Connection → Readable → Arrival
unfolding close
on_readable text aead c hung_up = hang_up c
on_readable text aead c would_block = record { link = c; delivered = []; status = fine }
on_readable text aead c read_failed = hang_up c
on_readable text aead c (chunk bytes) =
    if is_empty bytes then hang_up c else read_chunk text aead c (feed_records c.records bytes)
