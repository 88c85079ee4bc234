-- ===== src/Transfers/Outgoing.antt =====
-- `OutgoingTransfer` of daemon/fedoralink/transfers.py. `unread` is what the handle has not given
-- yet, and `hashed` what has gone to the digest.
use fedoralink.Prelude.{
  ℕ, ◌+◌, String, Bool, true, false, Option, none, some, [], ◌++◌, length, take, drop, ltb, leb,
  if◌then◌else◌, is_empty,
}
use fedoralink.Framing.{Bytes}
use fedoralink.Transfers.{too_large, chunk_bytes, max_file_bytes, Result, ok, err}
use fedoralink.Transfers.Incoming.{Hashing}

pub record Outgoing : Type 0 where
  pub id : String
  pub size : ℕ
  pub sent : ℕ
  pub next_seq : ℕ
  pub hashed : Bytes
  pub unread : Bytes
  pub closed : Bool

-- `__init__`, on a file with this content
unfoldable pub open_outgoing : String → Bytes → Result Outgoing
open_outgoing id content =
    if ltb max_file_bytes (length content)
    then err too_large
    else ok (record {
      id = id;
      size = length content;
      sent = 0;
      next_seq = 0;
      hashed = [];
      unread = content;
      closed = false;
    })

-- `done`
unfoldable pub all_sent : Outgoing → Bool
all_sent t = leb t.size t.sent

abbrev pub advance : Outgoing → Bytes → Outgoing
advance t bytes = record t {
  sent = t.sent + length bytes;
  next_seq = t.next_seq + 1;
  hashed = t.hashed ++ bytes;
  unread = drop chunk_bytes t.unread;
}

-- what `read` returned: nothing at the end of the file
abbrev pub chunk_of : Outgoing → Bytes → Option (ℕ × Bytes) × Outgoing
chunk_of t bytes = if is_empty bytes then (none, t) else (some (t.next_seq, bytes), advance t bytes)

-- `next_chunk`
unfoldable pub next_chunk : Outgoing → Option (ℕ × Bytes) × Outgoing
next_chunk t = if t.closed then (none, t) else chunk_of t (take chunk_bytes t.unread)

unfoldable pub sha256 : Hashing → Outgoing → String
sha256 h t = h.hexdigest t.hashed

unfoldable pub close : Outgoing → Outgoing
close t = record t { closed = true }
