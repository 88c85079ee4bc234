-- ===== src/Files/Slots/Handlers.antt =====
-- daemon/fedoralink/plugins/files.py: the receiving handlers, and the slots behind each.
use fedoralink.Prelude.{
  ℕ, ◌≡◌, inl, inr, refl, sym, ◌∙◌, String, Bool, true, false, Option, none, some, arith,
  Bool-cases,
}
use fedoralink.Json.{Json, Fields, get}
use fedoralink.Framing.{Bytes}
use fedoralink.Transfers.{Text, Offer, Result, ok, err, validate_offer}
use fedoralink.Transfers.Incoming.{
  Hashing, Saving, Incoming, open_incoming, write_chunk, write_at, Reply, done, error, finish,
  as_seq, Seq, missing, negative, number,
}
use fedoralink.Transfers.Incoming.Laws.{open_incoming-IsAccounted, write_chunk-IsAccounted}
use fedoralink.Transfers.Outgoing.{Outgoing}
use fedoralink.Files.{
  Files, Receiving, when_idle, is_for, show_progress, offered, offer_to_free, on_offer, placed,
  is_accept, answered, offer_answered, failed, fail_incoming, chunk_data, wrote, decoded, chunk_for,
  on_chunk, ended, done_for, on_done,
}
use fedoralink.Files.Pump.{
  start_pump, stop_pump, accepted, on_accept, cancel_outgoing, cancel_incoming, on_remote_cancel,
  nothing_left, cancel,
}
use fedoralink.Files.Slots.{
  IsOpen, IsSound, offer-IsSound, no_offer-IsSound, progress-IsSound, incoming-IsSound,
  no_incoming-IsSound, no_outgoing-IsSound, pumping-IsSound,
}

offered-IsSound :
    (posted : Option ℕ) (body : Fields) (r : Result Offer) (f : Files)
    → f.incoming ≡ none
    → IsSound f
    → IsSound (offered posted body r f).1
offered-IsSound posted body (err e) f n s = s
offered-IsSound none body (ok o) f n s = no_offer-IsSound f s
offered-IsSound (some id) body (ok o) f n s = offer-IsSound id o f n s

pub on_offer-IsSound :
    (posted : Option ℕ) (body : Fields) (f : Files) → IsSound f → IsSound (on_offer posted body f).1
unfolding on_offer
on_offer-IsSound posted body f s = go f.incoming f.pending_offer refl
  where
    go :
        (i : Option Receiving) (o : Option Offer)
        → f.incoming ≡ i
        → IsSound (offer_to_free posted body i o f).1
    go (some r) o e = s
    go none (some o) e = s
    go none none e = offered-IsSound posted body (validate_offer body) f e s

opened-IsOpen : (offer : Offer) → IsOpen (open_incoming offer.id offer.size none)
unfolding open_incoming
opened-IsOpen offer = record {
  reading = refl;
  accounted = open_incoming-IsAccounted offer.id offer.size none;
  absent = refl;
}

pub offer_answered-IsSound :
    (shown : Option ℕ → Option ℕ) (place : Option Text) (action : Option String) (f : Files)
    → IsSound f
    → IsSound (offer_answered shown place action f).1
unfolding offer_answered show_progress
offer_answered-IsSound shown place action f s = go f.pending_offer
  where
    cleared : Files
    cleared = record f { prompt_id = none; pending_offer = none }

    put : (offer : Offer) (p : Option Text) → IsSound (placed shown offer p cleared).1
    put offer none = no_offer-IsSound f s
    put offer (some path) =
        progress-IsSound _
          (record cleared {
            incoming =
                some (record { path = path; transfer = open_incoming offer.id offer.size none });
          })
          (incoming-IsSound
            (record { path = path; transfer = open_incoming offer.id offer.size none }) cleared refl
            (opened-IsOpen offer) (no_offer-IsSound f s))

    go : (o : Option Offer) → IsSound (answered shown place action o cleared).1
    go none = no_offer-IsSound f s
    go (some offer) = elim (Bool-cases (is_accept action)) [
      | inl a ↦ rw a (put offer place)
      | inr a ↦ rw a (no_offer-IsSound f s)
    ]

fail_incoming-IsSound :
    (reason : String) (f : Files) → IsSound f → IsSound (fail_incoming reason f).1
unfolding fail_incoming
fail_incoming-IsSound reason f s = go f.incoming
  where
    go : (i : Option Receiving) → IsSound (failed reason i f).1
    go none = s
    go (some r) = no_incoming-IsSound f s

write_chunk_keeps :
    (seq : Json) (bytes : Bytes) (t : Incoming)
    → ((write_chunk seq bytes t).1.closed ≡ t.closed)
      × ((write_chunk seq bytes t).1.target ≡ t.target)
unfolding write_chunk
write_chunk_keeps seq bytes t = elim (Bool-cases t.closed) [
  | inl c ↦ simp c (refl, refl)
  | inr c ↦ simp c (let (x, y) = go (as_seq seq) in (x ∙ c, y))
]
  where
    go :
        (q : Seq)
        → ((write_at bytes t q).1.closed ≡ t.closed) × ((write_at bytes t q).1.target ≡ t.target)
    go missing = (refl, refl)
    go negative = (refl, refl)
    go (number n) = ground arith

write_chunk-IsOpen :
    (seq : Json) (bytes : Bytes) (t : Incoming) → IsOpen t → IsOpen (write_chunk seq bytes t).1
write_chunk-IsOpen seq bytes t o =
    let (c, g) = write_chunk_keeps seq bytes t in
    record {
      reading = c ∙ o.reading;
      accounted = write_chunk-IsAccounted seq bytes t o.accounted;
      absent = g ∙ o.absent;
    }

pub on_chunk-IsSound :
    (shown : Option ℕ → Option ℕ) (b64decode : String → Option Bytes) (writes : Bool)
    (body : Fields) (f : Files)
    → IsSound f
    → IsSound (on_chunk shown b64decode writes body f).1
unfolding on_chunk show_progress
on_chunk-IsSound shown b64decode writes body f s = go f.incoming refl
  where
    put :
        (r : Receiving) (w : Bool) (x : Reply (Unit {0}) × Incoming)
        → f.incoming ≡ some r
        → IsOpen x.1
        → IsSound (wrote shown w r x f).1
    put r w (error e, t) i o = fail_incoming-IsSound "chunk refused" f s
    put r false (done _, t) i o = s
    put r true (done _, t) i o =
        progress-IsSound _ (record f { incoming = some (record r { transfer = t }) })
          (incoming-IsSound (record r { transfer = t }) f
            (elim s.one_incoming [
              | inl n ↦ (let z : none ≡ some r = sym n ∙ i in ground arith)
              | inr n ↦ n
            ])
            o s)

    data_for :
        (r : Receiving) (d : Option Bytes)
        → f.incoming ≡ some r
        → IsSound (decoded shown writes (get "seq" body) r d f).1
    data_for r none i = fail_incoming-IsSound "chunk was not valid base64" f s
    data_for r (some bytes) i =
        put r writes (write_chunk (get "seq" body) bytes r.transfer) i
          (write_chunk-IsOpen (get "seq" body) bytes r.transfer (s.incoming_open r i))

    go :
        (i : Option Receiving)
        → f.incoming ≡ i
        → IsSound (chunk_for shown b64decode writes body i f).1
    go none i = s
    go (some r) i = elim (Bool-cases (is_for body r.transfer.id)) [
      | inl m ↦ rw m (data_for r (chunk_data b64decode (get "data" body)) i)
      | inr m ↦ rw m s
    ]

pub on_done-IsSound :
    (h : Hashing) (saving : Saving) (body : Fields) (f : Files)
    → IsSound f
    → IsSound (on_done h saving body f).1
unfolding on_done
on_done-IsSound h saving body f s = go f.incoming
  where
    over :
        (r : Receiving) (x : Reply (Unit {0}) × Incoming)
        → IsSound (ended r x (record f { incoming = none })).1
    over r (done _, t) = no_incoming-IsSound f s
    over r (error e, t) = no_incoming-IsSound f s

    go : (i : Option Receiving) → IsSound (done_for h saving body i f).1
    go none = s
    go (some r) = elim (Bool-cases (is_for body r.transfer.id)) [
      | inl m ↦ rw m (over r (finish h saving (get "sha256" body) r.transfer))
      | inr m ↦ rw m s
    ]

pub on_accept-IsSound :
    (shown : Option ℕ → Option ℕ) (body : Fields) (f : Files)
    → IsSound f
    → IsSound (on_accept shown body f).1
unfolding on_accept show_progress start_pump
on_accept-IsSound shown body f s = go f.outgoing refl
  where
    go : (o : Option Outgoing) → f.outgoing ≡ o → IsSound (accepted shown body o f).1
    go none e = s
    go (some t) e = elim (Bool-cases (is_for body t.id)) [
      | inl m ↦ rw m (
          pumping-IsSound (some when_idle) t (record f { progress_id = shown f.progress_id }) e
            (progress-IsSound (shown f.progress_id) f s))
      | inr m ↦ rw m s
    ]

pub on_remote_cancel-IsSound :
    (body : Fields) (f : Files) → IsSound f → IsSound (on_remote_cancel body f).1
unfolding on_remote_cancel stop_pump
on_remote_cancel-IsSound body f s = go f.incoming
  where
    out : (o : Option Outgoing) → IsSound (cancel_outgoing body o f).1
    out none = s
    out (some t) = elim (Bool-cases (is_for body t.id)) [
      | inl m ↦ rw m (no_outgoing-IsSound f s)
      | inr m ↦ rw m s
    ]

    go : (i : Option Receiving) → IsSound (cancel_incoming body i f).1
    go none = out f.outgoing
    go (some r) = elim (Bool-cases (is_for body r.transfer.id)) [
      | inl m ↦ rw m (no_incoming-IsSound f s)
      | inr m ↦ rw m (out f.outgoing)
    ]

pub cancel-IsSound : (f : Files) → IsSound f → IsSound (cancel f).1.1
unfolding cancel stop_pump
cancel-IsSound f s = go f.outgoing
  where
    go : (o : Option Outgoing) → IsSound (nothing_left o f)
    go none = no_incoming-IsSound f s
    go (some t) = no_outgoing-IsSound (record f { incoming = none }) (no_incoming-IsSound f s)
