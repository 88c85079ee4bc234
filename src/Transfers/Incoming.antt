-- ===== src/Transfers/Incoming.antt =====
-- `IncomingTransfer` of daemon/fedoralink/transfers.py. `content` is what has gone to the handle
-- and to the digest; `temp` and `target` are the .part file and the destination.
pub mod Laws
use mathlib.Core.Logic.{◌⊎◌}
use fedoralink.Prelude.{
  ℕ, ◌+◌, String, Bool, true, false, ◌&&◌, Option, none, some, List, [], ◌∷◌, ◌++◌, length, ltb,
  ◌==◌, str_eq, if◌then◌else◌,
}
use fedoralink.Json.{Json, null, bool, int, negsuc, float, str, arr, obj, as_text}
use fedoralink.Framing.{Bytes}
use fedoralink.Transfers.{
  TransferError, finished, no_seq, out_of_order, too_much, already_finished, ended_early,
  hash_mismatch, not_saved,
}

-- `hashlib.sha256(...).hexdigest()` and `str.lower`
pub record Hashing : Type 0 where
  pub hexdigest : Bytes → String
  pub lower : String → String

pub record Incoming : Type 0 where
  pub id : String
  pub size : ℕ
  pub received : ℕ
  pub next_seq : ℕ
  pub content : Bytes
  pub temp : Option Bytes
  pub target : Option Bytes
  pub closed : Bool

-- `__init__`: the .part file is there and empty; the destination is as it was
unfoldable pub open_incoming : String → ℕ → Option Bytes → Incoming
open_incoming id size target = record {
  id = id;
  size = size;
  received = 0;
  next_seq = 0;
  content = [];
  temp = some [];
  target = target;
  closed = false;
}

-- a sequence number: a Python int that is no bool
pub data Seq : Type 0 where
  missing : Seq
  negative : Seq
  number : ℕ → Seq

unfoldable pub as_seq : Json → Seq
as_seq (int n) = number n
as_seq (negsuc _) = negative
as_seq null = missing
as_seq (bool _) = missing
as_seq (float _) = missing
as_seq (str _) = missing
as_seq (arr _) = missing
as_seq (obj _) = missing

-- What a call comes to; each error is a TransferError.
pub data Reply (A : Type 0) : Type 0 where
  done : A → Reply A
  error : TransferError → Reply A

abbrev pub write_at : Bytes → Incoming → Seq → Reply (Unit {0}) × Incoming
write_at bytes t missing = (error no_seq, t)
write_at bytes t negative = (error out_of_order, t)
write_at bytes t (number n) =
    if n == t.next_seq
    then (if ltb t.size (t.received + length bytes) then (error too_much, t) else (
      done tt,
      record t {
        content = t.content ++ bytes;
        temp = some (t.content ++ bytes);
        received = t.received + length bytes;
        next_seq = t.next_seq + 1;
      },
    ))
    else (error out_of_order, t)

-- `write_chunk`
unfoldable pub write_chunk : Json → Bytes → Incoming → Reply (Unit {0}) × Incoming
unfolding as_seq
write_chunk seq bytes t = if t.closed then (error finished, t) else write_at bytes t (as_seq seq)

-- `discard`, with `_close_handle`, where `unlink` does not fail
unfoldable pub discard : Incoming → Incoming
discard t = record t { closed = true; temp = none }

-- `isinstance(expected_hash, str) and expected_hash`, and then the comparison
abbrev pub hash_ok : Hashing → Bytes → Option String → Bool
hash_ok h content none = true
hash_ok h content (some expected) = str_eq (h.hexdigest content) (h.lower expected)

-- What the disk does at the end: the .part file is moved into place, or `replace` raises an OSError.
-- With `cuts` it is `close` that raises one, which `_close_handle` swallows: the file holds only these
-- bytes, and is moved into place all the same.
pub data Saving : Type 0 where
  moves stays : Saving
  cuts : Bytes → Saving

-- `temp_path.replace(destination)`
abbrev pub rename : Saving → Incoming → Reply (Unit {0}) × Incoming
rename moves t = (done tt, record t { target = t.temp; temp = none })
rename stays t = (error not_saved, discard t)
rename (cuts left) t = (done tt, record t { target = some left; temp = none })

abbrev pub finish_closed : Hashing → Saving → Json → Incoming → Reply (Unit {0}) × Incoming
finish_closed h saving expected t =
    if t.received == t.size
    then (if hash_ok h t.content (as_text expected)
        then rename saving t
        else (error hash_mismatch, discard t))
    else (error ended_early, discard t)

-- `finish`
unfoldable pub finish : Hashing → Saving → Json → Incoming → Reply (Unit {0}) × Incoming
unfolding discard
finish h saving expected t =
    if t.closed
    then (error already_finished, t)
    else finish_closed h saving expected (record t { closed = true })
