-- ===== src/Files/Whole/Through.antt =====
-- daemon/fedoralink/plugins/files.py: the pump of one side, until its file is sent.
use fedoralink.Prelude.{
  ℕ, zero, suc, ◌+◌, ◌<◌, ◌≡◌, refl, ◌∙◌, ap, String, true, Option, none, some, [], ◌∷◌, length,
  arith, Bool-cases, inl, inr, take, is_empty, length-drop,
}
use fedoralink.Json.{str, as_text}
use fedoralink.Framing.{Bytes}
use fedoralink.Transfers.{Text, chunk_bytes, ok}
use fedoralink.Transfers.Incoming.{Hashing, Incoming, open_incoming, hash_ok}
use fedoralink.Transfers.Outgoing.{Outgoing, open_outgoing, advance}
use fedoralink.Transfers.Whole.{
  InStep, write_chunk_next, some_taken, written, chunk_fits, advance-InStep, all_written, opened_is,
  hash_matches, finish_saves,
}
use fedoralink.Files.{Files, when_idle, tell, progress, released}
use fedoralink.Files.Whole.{
  exchange, saves_here, saves_later, IsThrough, with_transfer, good_disk, pump_more, pump_end,
  stopped, one_turn, chunk_delivered, done_delivered,
}

module _ (h : Hashing) (b64encode : Bytes → String) (b64decode : String → Option Bytes)
    (shown taken : Option ℕ → Option ℕ) (posted : Option ℕ) where
  -- the file is through as soon as there are more turns than bytes
  through :
      (fuel : ℕ) (o : Outgoing) (t : Incoming) (path : Text) (content : Bytes) (s r : Files)
      → ((bytes : Bytes) → b64decode (b64encode bytes) ≡ some bytes)
      → h.lower (h.hexdigest content) ≡ h.hexdigest content
      → length o.unread < fuel
      → o.id ≡ t.id
      → InStep o t content
      → s.outgoing ≡ some o
      → s.pump_source ≡ some when_idle
      → r.incoming ≡ some (record { path = path; transfer = t })
      → IsThrough path content
          (exchange h b64encode shown (good_disk h b64encode b64decode shown taken posted) fuel s r)
  through zero o t path content s r back low enough same step out on in_ = absurd (omega arith)
  through (suc fuel) o t path content s r back low enough same step out on in_ =
      elim (Bool-cases (is_empty (take chunk_bytes o.unread))) [
        | inl e ↦
            let s' : Files = record s { pump_source = none; outgoing = none } in
            let (c, received) = all_written o t content step e in
            let right : hash_ok h t.content (as_text (str (h.hexdigest o.hashed))) ≡ true =
              ap (λ x. hash_ok h t.content (as_text (str (h.hexdigest x)))) (step.same_bytes ∙ c)
              ∙ ap (λ x. hash_ok h x (as_text (str (h.hexdigest content)))) c
              ∙ hash_matches h content low in
            let put = finish_saves h (str (h.hexdigest o.hashed)) t step.writing received right in
            let t' : Incoming = record t { closed = true; target = t.temp; temp = none } in
            let got =
              done_delivered h b64encode b64decode shown taken posted o "File sent" path t t' r same
                in_ put in
            rw
              (one_turn h b64encode b64decode shown taken posted fuel when_idle s s' r
                (record r { incoming = none }) _ (released path t' ∷ tell "File received" ∷ []) on
                (pump_end h b64encode b64decode shown taken posted o s out step.reading e) got)
              (rw
                (stopped h b64encode b64decode shown taken posted fuel s'
                  (record r { incoming = none }) refl)
                (record {
                  sender_free = refl;
                  pump_gone = refl;
                  receiver_free = refl;
                  saved = saves_here t' _ (step.in_temp ∙ ap some c);
                }))
        | inr e ↦
            let bytes = take chunk_bytes o.unread in
            let s' : Files = record s {
              outgoing = some (advance o bytes);
              progress_id = shown s.progress_id;
            } in
            let r' = with_transfer path (written bytes t) (taken r.progress_id) r in
            let pos = some_taken 32767 o.unread e in
            let d = length-drop chunk_bytes o.unread in
            let put =
              write_chunk_next o.next_seq bytes t step.writing step.same_seq
                (chunk_fits o t content step) in
            let got =
              chunk_delivered h b64encode b64decode shown taken posted bytes o.id o.next_seq
                (o.sent + length bytes) o.size path t r (back bytes) same in_ put in
            let rest =
              through fuel (advance o bytes) (written bytes t) path content s' r' back low
                (omega arith) same (advance-InStep o t content step) refl on refl in
            rw
              (one_turn h b64encode b64decode shown taken posted fuel when_idle s s' r r' _
                (progress (t.received + length bytes) t.size ∷ []) on
                (pump_more h b64encode b64decode shown taken posted o s out step.reading e) got)
              (record {
                sender_free = rest.sender_free;
                pump_gone = rest.pump_gone;
                receiver_free = rest.receiver_free;
                saved = saves_later _ _ rest.saved;
              })
      ]

  -- Of two plugins, one has a freshly opened file in its slot and its pump on, and the other the
  -- transfer that was just opened for it, on a disk that works and behind a socket that drains. If
  -- base64 is decoded to what was encoded, and a digest is in lower case, then after more turns of
  -- the pump than the file has bytes both slots are free, the pump is gone, and the receiver has put
  -- a file with the very content in place.
  pub exchange-IsThrough :
      (fuel : ℕ) (id : String) (o : Outgoing) (path : Text) (content : Bytes) (s r : Files)
      → ((bytes : Bytes) → b64decode (b64encode bytes) ≡ some bytes)
      → h.lower (h.hexdigest content) ≡ h.hexdigest content
      → open_outgoing id content ≡ ok o
      → length content < fuel
      → s.outgoing ≡ some o
      → s.pump_source ≡ some when_idle
      → r.incoming ≡ some (record { path = path; transfer = open_incoming o.id o.size none })
      → IsThrough path content
          (exchange h b64encode shown (good_disk h b64encode b64decode shown taken posted) fuel s r)
  unfolding open_incoming
  exchange-IsThrough fuel id o path content s r back low opened enough out on in_ =
      let (size, seq, hashed, unread, reading) = opened_is id content o opened in
      let start : InStep o (open_incoming o.id o.size none) content = record {
        same_seq = seq;
        same_bytes = hashed;
        counted = refl;
        cut = unread;
        sized = size;
        in_temp = refl;
        reading = reading;
        writing = refl;
      } in
      let l = ap length unread in
      through fuel o (open_incoming o.id o.size none) path content s r back low (omega arith) refl
        start out on in_
