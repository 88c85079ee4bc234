-- ===== src/Link/Delivery.antt =====
-- daemon/fedoralink/tcp.py: `TcpConnection.send` on one side and `_on_packet` on the other.
use fedoralink.Prelude.{
  ℕ, suc, ◌+◌, ◌<◌, ◌≤◌, ◌≡◌, refl, ap, ◌∙◌, sym, false, none, List, [], ◌∷◌, ◌++◌, length,
  length-append, append_assoc_lem, append-nil, is_empty, arith,
}
use fedoralink.Json.{obj, Fields}
use native.Mathlib.Nat.{add-zero}
use fedoralink.Framing.{Bytes, wait, Outcome, feed_with}
use fedoralink.Framing.Chunks.{drain_stops}
use fedoralink.Framing.Codec.{encode_all, join, All, StopsIn, drain_stream, none_left, All-append}
use fedoralink.BigEndian.{digits_be}
use fedoralink.Protocol.{JsonText, serialize}
use fedoralink.Protocol.RoundTrip.{feed-serialize}
use fedoralink.Session.{SessionError, Aead, feed_records, next_record}
use fedoralink.Session.Records.{frame_record, IsRecord, next_record-IsFraming, next_record-IsCodec}
use fedoralink.Link.{Connection, Arrival, fine, handle_record, handle_records, on_readable, chunk}
use fedoralink.Link.Opening.{IsAead, counter_limit, open_record_lem}
use fedoralink.Link.Calls.{
  Calls, length-packets_of, send_all, packets_of, receive, sealed_from, IsSendable,
}
use fedoralink.Link.Sending.{written-send_all}

module _ (text : JsonText) (aead : Aead) (law : IsAead aead) where
  -- the receiving side, at the counter where the other side began
  pub record IsReady (c : Connection) (key : Bytes) (n : ℕ) : Type 0 where
    pub same_key : c.crypto.recv_key ≡ key
    pub same_counter : c.crypto.recv_counter ≡ n
    pub no_part : c.packets ≡ []

  handle_record_sealed :
      (packet : Fields) (c : Connection) (key : Bytes) (n : ℕ)
      → IsReady c key n
      → n < counter_limit
      → IsSendable text aead packet
      → handle_record text aead c (aead.encrypt key (digits_be 12 n) (serialize text (obj packet)))
        ≡ record {
          link = record c {
            crypto = record c.crypto { recv_counter = c.crypto.recv_counter + 1 };
            packets = [];
          };
          delivered = packet ∷ [];
          status = fine;
        }
  unfolding handle_record
  handle_record_sealed packet c key n ready k g =
      rw (← ready.same_key, ← ready.same_counter)
        (rw
          (
            open_record_lem aead c.crypto (serialize text (obj packet)) law
                (rw ready.same_counter k),
            ready.no_part,
            feed-serialize text packet g.packet_fine,
          )
          refl)

  -- what the handling of some sealed packets leaves
  record IsReceived (c : Connection) (key : Bytes) (n : ℕ) (ps : List Fields) (a : Arrival)
      : Type 0 where
    all_of_them : a.delivered ≡ ps
    no_error : a.status ≡ fine
    ready : IsReady a.link key (n + length ps)
    records_kept : a.link.records ≡ c.records

  handle_records_sealed :
      (ps : List Fields) (c : Connection) (key : Bytes) (n : ℕ)
      → IsReady c key n
      → n + length ps ≤ counter_limit
      → All (IsSendable text aead) ps
      → IsReceived c key n ps (handle_records text aead c (sealed_from text aead key n ps))
  unfolding handle_records sealed_from
  handle_records_sealed [] c key n ready k g = record {
    all_of_them = refl;
    no_error = refl;
    ready = record {
      same_key = ready.same_key;
      same_counter = omega (arith, ready.same_counter);
      no_part = ready.no_part;
    };
    records_kept = refl;
  }
  handle_records_sealed (p ∷ ps) c key n ready k g =
      rw (handle_record_sealed p c key n ready (omega arith) g.0) (
        let r =
          handle_records_sealed ps
            (record c {
              crypto = record c.crypto { recv_counter = c.crypto.recv_counter + 1 };
              packets = [];
            })
            key (n + 1)
            (record {
              same_key = ready.same_key;
              same_counter = omega (arith, ready.same_counter);
              no_part = refl;
            })
            (omega arith) g.1 in
        record {
          all_of_them = ap (◌∷◌ p) r.all_of_them;
          no_error = r.no_error;
          ready = record {
            same_key = r.ready.same_key;
            same_counter = omega (arith, r.ready.same_counter);
            no_part = r.ready.no_part;
          };
          records_kept = r.records_kept;
        })

  -- where a list of sealed packets is cut, the packets are cut
  record IsCut (key : Bytes) (n : ℕ) (ps : List Fields) (xs ys : List Bytes) : Type 0 where
    before : List Fields
    behind : List Fields
    whole : ps ≡ before ++ behind
    is_before : xs ≡ sealed_from text aead key n before
    is_behind : ys ≡ sealed_from text aead key (n + length before) behind

  shift : (n m : ℕ) → n + suc m ≡ n + 1 + m
  shift n m = omega arith

  sealed_from-IsCut :
      (key : Bytes) (n : ℕ) (ps : List Fields) (xs ys : List Bytes)
      → sealed_from text aead key n ps ≡ xs ++ ys
      → IsCut key n ps xs ys
  unfolding sealed_from
  sealed_from-IsCut key n ps [] ys e = record {
    before = [];
    behind = ps;
    whole = refl;
    is_before = refl;
    is_behind = rw add-zero (sym e);
  }
  sealed_from-IsCut key n [] (x ∷ xs) ys e = absurd (cc)
  sealed_from-IsCut key n (p ∷ ps) (x ∷ xs) ys e =
      let r = sealed_from-IsCut key (n + 1) ps xs ys (cc) in
      record {
        before = p ∷ r.before;
        behind = r.behind;
        whole = ap (◌∷◌ p) r.whole;
        is_before = cc r.is_before;
        is_behind = rw (shift n (length r.before)) r.is_behind;
      }

  nothing_sealed :
      (key : Bytes) (n : ℕ) (ps : List Fields) → sealed_from text aead key n ps ≡ [] → ps ≡ []
  unfolding sealed_from
  nothing_sealed key n [] e = refl
  nothing_sealed key n (p ∷ ps) e = absurd (cc)

  pub sealed-IsRecord :
      (key : Bytes) (n : ℕ) (ps : List Fields)
      → All (IsSendable text aead) ps
      → All IsRecord (sealed_from text aead key n ps)
  unfolding sealed_from
  sealed-IsRecord key n [] g = tt
  sealed-IsRecord key n (p ∷ ps) g =
      let t = law.tagged key (digits_be 12 n) (serialize text (obj p)) in
      (
        record { positive = omega arith; small = omega (arith, g.0.fits) },
        sealed-IsRecord key (n + 1) ps g.1,
      )

  -- one chunk that is not empty, with what the reader made of it
  on_readable_chunk :
      (c : Connection) (bytes : Bytes) (o : Outcome Bytes SessionError) (a : Arrival)
      → is_empty bytes ≡ false
      → feed_records c.records bytes ≡ o
      → o.error ≡ none
      → handle_records text aead (record c { records = o.buffer }) o.items ≡ a
      → a.status ≡ fine
      → on_readable text aead c (chunk bytes) ≡ a
  unfolding on_readable
  on_readable_chunk c bytes o a ne f calm h s = rw (ne, f, h, s, calm) refl

  pub receive-sealed_from :
      (chunks : List Bytes) (c : Connection) (key : Bytes) (n : ℕ) (ps : List Fields)
      → IsReady c key n
      → next_record c.records ≡ wait
      → All (λ x. is_empty x ≡ false) chunks
      → All (IsSendable text aead) ps
      → n + length ps ≤ counter_limit
      → c.records ++ join chunks ≡ encode_all frame_record (sealed_from text aead key n ps)
      → ((receive text aead chunks c).delivered ≡ ps) × ((receive text aead chunks c).status ≡ fine)
  unfolding receive
  receive-sealed_from [] c key n ps ready w ne g k e =
      let e' : c.records ≡ encode_all frame_record (sealed_from text aead key n ps) =
        sym (append-nil c.records) ∙ e in
      let z =
        none_left next_record frame_record IsRecord next_record-IsFraming next_record-IsCodec
          (sealed_from text aead key n ps) (sealed-IsRecord key n ps g) (rw (← e') w) in
      (sym (nothing_sealed key n ps z), refl)
  receive-sealed_from (bytes ∷ more) c key n ps ready w ne g k e =
      let o = feed_records c.records bytes in
      let stop : StopsIn next_record frame_record IsRecord next_record-IsFraming next_record-IsCodec
          o (sealed_from text aead key n ps) (join more) =
        unfold feed_records feed_with in
        drain_stream next_record frame_record IsRecord next_record-IsFraming next_record-IsCodec
          (sealed_from text aead key n ps) (suc (length (c.records ++ bytes))) (c.records ++ bytes)
          (join more) (omega arith) (sealed-IsRecord key n ps g)
          (append_assoc_lem c.records bytes (join more) ∙ e) in
      let cut = sealed_from-IsCut key n ps o.items stop.rest stop.splits in
      let l = ap length cut.whole in
      let (g1, g2) = All-append (IsSendable text aead) cut.before cut.behind (rw cut.whole at g) in
      let r = rw (← cut.is_before) at (
        handle_records_sealed cut.before (record c { records = o.buffer }) key n
          (record {
            same_key = ready.same_key;
            same_counter = ready.same_counter;
            no_part = ready.no_part;
          })
          (omega (arith, length-append cut.before cut.behind)) g1) in
      let a = handle_records text aead (record c { records = o.buffer }) o.items in
      let arrives = on_readable_chunk c bytes o a ne.0 refl stop.calm refl r.no_error in
      let ih =
        receive-sealed_from more a.link key (n + length cut.before) cut.behind r.ready
          (rw r.records_kept (
            unfold feed_records feed_with in
            drain_stops next_record next_record-IsFraming (suc (length (c.records ++ bytes)))
              (c.records ++ bytes) (omega arith) stop.calm))
          ne.1 g2 (omega (arith, length-append cut.before cut.behind))
          (rw (r.records_kept, ← cut.is_behind) stop.left) in
      rw (arrives, r.no_error) (rw (r.all_of_them, ih.0) (sym cut.whole), ih.1)

-- The packets that one side sends are the packets that the other side is handed, in order and with
-- no error, wherever the stream is cut into non-empty chunks: for packets that fit a line and a
-- record and that the json module reads back, with a cipher that opens what it sealed, and for a
-- sender and a receiver that begin at the same counter of the same key, below its limit, with
-- nothing buffered, as long as the sender's socket did not fail.
pub receive-send_all :
    (text : JsonText) (aead : Aead) (calls : Calls) (chunks : List Bytes) (s r : Connection)
    → IsAead aead
    → s.written ++ s.outbox ≡ []
    → (send_all text aead calls s).closed ≡ false
    → All (IsSendable text aead) (packets_of calls)
    → s.crypto.send_counter + length calls ≤ counter_limit
    → r.crypto.recv_key ≡ s.crypto.send_key
    → r.crypto.recv_counter ≡ s.crypto.send_counter
    → r.packets ≡ []
    → r.records ≡ []
    → All (λ x. is_empty x ≡ false) chunks
    → join chunks ≡ (send_all text aead calls s).written ++ (send_all text aead calls s).outbox
    → ((receive text aead chunks r).delivered ≡ packets_of calls)
      × ((receive text aead chunks r).status ≡ fine)
receive-send_all text aead calls chunks s r law clear up g k key counter np nr ne e =
    receive-sealed_from text aead law chunks r s.crypto.send_key s.crypto.send_counter
      (packets_of calls) (record { same_key = key; same_counter = counter; no_part = np })
      (rw nr next_record-IsCodec.nothing) ne g (omega (arith, length-packets_of calls))
      (rw nr (e ∙ written-send_all text aead law calls s up g k ∙ rw clear refl))
