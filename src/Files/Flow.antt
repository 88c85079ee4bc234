-- ===== src/Files/Flow.antt =====
-- daemon/fedoralink/plugins/files.py: the pump, and what the socket has not taken yet.
use fedoralink.Prelude.{
  ℕ, ◌≤◌, ◌<◌, ◌≡◌, String, true, false, Option, none, some, [], ◌∷◌, length, is_empty, take, drop,
}
use fedoralink.Framing.{Bytes}
use fedoralink.Transfers.{chunk_bytes}
use fedoralink.Transfers.Incoming.{Hashing}
use fedoralink.Transfers.Outgoing.{Outgoing}
use fedoralink.Files.{Files, Step, after_drain, tell, progress}
use fedoralink.Files.Pump.{high_water_bytes, chunk_packet, done_packet}

-- What one turn does: it stops with no file to send, it waits above the mark, and otherwise it
-- sends the next bytes of the file as a chunk, or with no bytes left the end of the file.
pub data IsPaced (h : Hashing) (b64encode : Bytes → String) (shown : Option ℕ → Option ℕ)
    (pending_bytes : ℕ) (f : Files) : Step → Type 0 where
  stops :
      f.outgoing ≡ none
      → IsPaced h b64encode shown pending_bytes f ([], record f { pump_source = none })
  waits :
      high_water_bytes < pending_bytes
      → IsPaced h b64encode shown pending_bytes f ([], record f { pump_source = some after_drain })
  sends_chunk :
      (t t' : Outgoing) (f' : Files)
      → f.outgoing ≡ some t
      → pending_bytes ≤ high_water_bytes
      → is_empty (take chunk_bytes t.unread) ≡ false
      → length (take chunk_bytes t.unread) ≤ chunk_bytes
      → t'.unread ≡ drop chunk_bytes t.unread
      → f'.outgoing ≡ some t'
      → f'.pump_source ≡ f.pump_source
      → IsPaced h b64encode shown pending_bytes f (
        chunk_packet h b64encode shown t.id t.next_seq (take chunk_bytes t.unread)
            ∷ progress t'.sent t'.size
            ∷ [],
        f',
      )
  sends_done :
      (t : Outgoing) (text : String) (f' : Files)
      → f.outgoing ≡ some t
      → pending_bytes ≤ high_water_bytes
      → is_empty (take chunk_bytes t.unread) ≡ true
      → f'.outgoing ≡ none
      → f'.pump_source ≡ none
      → IsPaced h b64encode shown pending_bytes f
          (done_packet h b64encode shown t ∷ tell text ∷ [], f')
