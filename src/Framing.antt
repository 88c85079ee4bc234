-- ===== src/Framing.antt =====
-- The `while True` loop that daemon/fedoralink/protocol.py (`PacketReader.feed`) and
-- daemon/fedoralink/session.py (`RecordReader.feed`) both run on their buffer. A reader says
-- what one turn of its loop does; the loop, and what is fed to it, are the same for both.
pub mod Chunks
pub mod Codec
use fedoralink.Prelude.{ℕ, zero, suc, Option, none, some, List, [], ◌∷◌, ◌++◌, length}

abbrev pub Bytes : Type 0
Bytes = List ℕ

-- One turn of the loop: return and wait for more bytes, raise (and leave the given buffer),
-- `continue` with the given buffer, or yield an item and go on with the given buffer.
pub data Next (I E : Type 0) : Type 0 where
  wait : Next I E
  fail : Bytes → E → Next I E
  skip : Bytes → Next I E
  emit : I → Bytes → Next I E

-- What a call of `feed` yields, the buffer that it leaves, and what it raises at the end.
pub record Outcome (I E : Type 0) : Type 0 where
  pub items : List I
  pub buffer : Bytes
  pub error : Option E

module _ {I E : Type 0} where
  abbrev pub idle : Bytes → Outcome I E
  idle buf = record { items = []; buffer = buf; error = none }

  abbrev pub push : I → Outcome I E → Outcome I E
  push i o = record o { items = i ∷ o.items }

  abbrev pub prepend : List I → Outcome I E → Outcome I E
  prepend is o = record o { items = is ++ o.items }

  abbrev pub after : Bytes → (Bytes → Outcome I E) → Next I E → Outcome I E
  after buf k wait = idle buf
  after buf k (fail rest e) = record { items = []; buffer = rest; error = some e }
  after buf k (skip rest) = k rest
  after buf k (emit i rest) = push i (k rest)

  -- the loop, on fuel: a turn that goes on always leaves a shorter buffer
  unfoldable pub drain : (Bytes → Next I E) → ℕ → Bytes → Outcome I E
  drain next zero buf = idle buf
  drain next (suc n) buf = after buf (drain next n) (next buf)

  -- `self._buf.extend(chunk)`, and the loop
  unfoldable pub feed_with : (Bytes → Next I E) → Bytes → Bytes → Outcome I E
  feed_with next buf chunk = drain next (suc (length (buf ++ chunk))) (buf ++ chunk)
