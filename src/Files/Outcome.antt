-- ===== src/Files/Outcome.antt =====
-- daemon/fedoralink/plugins/files.py: what a transfer leaves on the disk.
pub mod Events
use mathlib.Core.Path.{subst}
use fedoralink.Prelude.{
  ℕ, ◌≡◌, ◌⊎◌, inl, inr, refl, ap, sym, ◌∙◌, String, Bool, true, false, Option, none, some, List,
  [], ◌∷◌, ◌++◌, arith, Bool-cases, length,
}
use fedoralink.Json.{Json, str, Fields, get}
use fedoralink.Framing.{Bytes}
use fedoralink.Transfers.{Text, Offer}
use fedoralink.Transfers.Incoming.{
  Hashing, Saving, moves, stays, cuts, Incoming, write_chunk, Reply, done, error, finish, discard,
  Seq, missing, negative, number, as_seq, write_at,
}
use fedoralink.Transfers.Incoming.Laws.{
  Ended, saved, too_short, wrong_hash, not_moved, finish-Ended, left_by,
}
use fedoralink.Transfers.Outgoing.{Outgoing}
use fedoralink.Files.{
  Files, Step, Act, released, Receiving, cancel_remote, is_for, show_progress, offer_to_free,
  on_offer, is_accept, answered, offer_answered, failed, fail_incoming, chunk_data, wrote, decoded,
  chunk_for, on_chunk, ended, done_for, on_done,
}
use fedoralink.Files.Pump.{
  accepted, on_accept, start_pump, stop_pump, cancel_outgoing, cancel_incoming, on_remote_cancel,
}
use fedoralink.Files.Slots.{IsOpen, IsSound}

-- A transfer that is over: no .part file, and either no file or a whole one.
pub record IsSettled (t : Incoming) : Type 0 where
  pub no_part : t.temp ≡ none
  pub all_or_nothing :
      (t.target ≡ none)
      ⊎ ((content : Bytes) × (t.target ≡ some content) × (length content ≡ t.size))

-- What a step makes of the transfer in the slot: it is still there, or it has left the slot, and what
-- is on disk of it is settled.
pub data Fate (r : Receiving) (x : Step) : Type 0 where
  kept :
      (r' : Receiving)
      → x.1.incoming ≡ some r'
      → r'.path ≡ r.path
      → r'.transfer.id ≡ r.transfer.id
      → Fate r x
  left :
      (before after : List Act) (t' : Incoming)
      → x.0 ≡ before ++ released r.path t' ∷ after
      → x.1.incoming ≡ none
      → t'.size ≡ r.transfer.size
      → IsSettled t'
      → Fate r x

-- the same of a slot that may be free
abbrev pub FateOf : Option Receiving → Step → Type 0
FateOf none x = Unit
FateOf (some r) x = Fate r x

pub same-FateOf : (i : Option Receiving) (x : Step) → x.1.incoming ≡ i → FateOf i x
same-FateOf none x e = tt
same-FateOf (some r) x e = kept r e refl refl

pub discard-IsSettled : (t : Incoming) → IsOpen t → IsSettled (discard t)
unfolding discard
discard-IsSettled t o = record { no_part = refl; all_or_nothing = inl o.absent }

-- `close` does not fail
abbrev pub is_flushed : Saving → Bool
is_flushed moves = true
is_flushed stays = true
is_flushed (cuts _) = false

flushed_whole :
    (saving : Saving) (content : Bytes)
    → is_flushed saving ≡ true
    → left_by saving content ≡ content
flushed_whole moves content e = refl
flushed_whole stays content e = refl
flushed_whole (cuts some_bytes) content e = cc

finish-size :
    (h : Hashing) (saving : Saving) (expected : Json) (t : Incoming)
    → (finish h saving expected t).1.size ≡ t.size
unfolding finish discard
finish-size h moves expected t = ground arith
finish-size h stays expected t = ground arith
finish-size h (cuts some_bytes) expected t = ground arith

finish-IsSettled :
    (h : Hashing) (saving : Saving) (expected : Json) (t : Incoming)
    → is_flushed saving ≡ true
    → IsOpen t
    → IsSettled (finish h saving expected t).1
finish-IsSettled h saving expected t flushed o =
    go (finish h saving expected t) (finish-Ended h saving expected t o.accounted o.reading)
      (finish-size h saving expected t)
  where
    nothing : (t' : Incoming) → t'.target ≡ t.target → t'.temp ≡ none → IsSettled t'
    nothing t' same gone = record { no_part = gone; all_or_nothing = inl (same ∙ o.absent) }

    go :
        (x : Reply (Unit {0}) × Incoming)
        → Ended h saving expected t x
        → x.1.size ≡ t.size
        → IsSettled x.1
    go _ (saved t' whole _ there gone) z = record {
      no_part = gone;
      all_or_nothing =
          inr (t.content, there ∙ ap some (flushed_whole saving t.content flushed), whole ∙ sym z);
    }
    go _ (too_short t' _ same gone) z = nothing t' same gone
    go _ (wrong_hash hash t' _ _ same gone) z = nothing t' same gone
    go _ (not_moved t' _ same gone) z = nothing t' same gone

failed-Fate :
    (reason : String) (r : Receiving) (f : Files)
    → f.incoming ≡ some r
    → IsSound f
    → Fate r (fail_incoming reason f)
unfolding fail_incoming
failed-Fate reason r f e s =
    subst (λ i. Fate r (failed reason i f)) (sym e)
      (left (cancel_remote (str r.transfer.id) reason) _ (discard r.transfer) refl refl
        (unfold discard in refl) (discard-IsSettled r.transfer (s.incoming_open r e)))

pub on_offer-Fate :
    (posted : Option ℕ) (body : Fields) (f : Files) → FateOf f.incoming (on_offer posted body f)
unfolding on_offer
on_offer-Fate posted body f = go f.incoming refl
  where
    go :
        (i : Option Receiving)
        → f.incoming ≡ i
        → FateOf i (offer_to_free posted body i f.pending_offer f)
    go none e = tt
    go (some r) e = kept r e refl refl

write_chunk-id : (seq : Json) (bytes : Bytes) (t : Incoming) → (write_chunk seq bytes t).1.id ≡ t.id
unfolding write_chunk
write_chunk-id seq bytes t = elim (Bool-cases t.closed) [
  | inl c ↦ simp c refl
  | inr c ↦ simp c (go (as_seq seq))
]
  where
    go : (q : Seq) → (write_at bytes t q).1.id ≡ t.id
    go missing = refl
    go negative = refl
    go (number n) = ground arith

pub on_chunk-Fate :
    (shown : Option ℕ → Option ℕ) (b64decode : String → Option Bytes) (writes : Bool)
    (body : Fields) (f : Files)
    → IsSound f
    → FateOf f.incoming (on_chunk shown b64decode writes body f)
unfolding on_chunk show_progress
on_chunk-Fate shown b64decode writes body f s = go f.incoming refl
  where
    put :
        (r : Receiving) (w : Bool) (x : Reply (Unit {0}) × Incoming)
        → f.incoming ≡ some r
        → x.1.id ≡ r.transfer.id
        → Fate r (wrote shown w r x f)
    put r w (error why, t) e q = failed-Fate "chunk refused" r f e s
    put r false (done _, t) e q = kept r e refl refl
    put r true (done _, t) e q = kept (record r { transfer = t }) refl refl q

    data_for :
        (r : Receiving) (d : Option Bytes)
        → f.incoming ≡ some r
        → Fate r (decoded shown writes (get "seq" body) r d f)
    data_for r none e = failed-Fate "chunk was not valid base64" r f e s
    data_for r (some bytes) e =
        put r writes (write_chunk (get "seq" body) bytes r.transfer) e
          (write_chunk-id (get "seq" body) bytes r.transfer)

    go :
        (i : Option Receiving)
        → f.incoming ≡ i
        → FateOf i (chunk_for shown b64decode writes body i f)
    go none e = tt
    go (some r) e = elim (Bool-cases (is_for body r.transfer.id)) [
      | inl m ↦ rw m (data_for r (chunk_data b64decode (get "data" body)) e)
      | inr m ↦ rw m (kept r e refl refl)
    ]

pub on_done-Fate :
    (h : Hashing) (saving : Saving) (body : Fields) (f : Files)
    → is_flushed saving ≡ true
    → IsSound f
    → FateOf f.incoming (on_done h saving body f)
unfolding on_done
on_done-Fate h saving body f flushed s = go f.incoming refl
  where
    over :
        (r : Receiving) (x : Reply (Unit {0}) × Incoming)
        → x.1.size ≡ r.transfer.size
        → IsSettled x.1
        → Fate r (ended r x (record f { incoming = none }))
    over r (done _, t) z c = left [] _ t refl refl z c
    over r (error e, t) z c = left [] _ t refl refl z c

    go : (i : Option Receiving) → f.incoming ≡ i → FateOf i (done_for h saving body i f)
    go none e = tt
    go (some r) e = elim (Bool-cases (is_for body r.transfer.id)) [
      | inl m ↦ rw m (
          over r (finish h saving (get "sha256" body) r.transfer)
            (finish-size h saving (get "sha256" body) r.transfer)
            (finish-IsSettled h saving (get "sha256" body) r.transfer flushed
              (s.incoming_open r e)))
      | inr m ↦ rw m (kept r e refl refl)
    ]

pub on_accept-Fate :
    (shown : Option ℕ → Option ℕ) (body : Fields) (f : Files)
    → FateOf f.incoming (on_accept shown body f)
unfolding on_accept show_progress start_pump
on_accept-Fate shown body f = go f.outgoing
  where
    go : (o : Option Outgoing) → FateOf f.incoming (accepted shown body o f)
    go none = same-FateOf f.incoming _ refl
    go (some t) = elim (Bool-cases (is_for body t.id)) [
      | inl m ↦ rw m (same-FateOf f.incoming _ refl)
      | inr m ↦ rw m (same-FateOf f.incoming _ refl)
    ]

pub on_remote_cancel-Fate :
    (body : Fields) (f : Files) → IsSound f → FateOf f.incoming (on_remote_cancel body f)
unfolding on_remote_cancel stop_pump
on_remote_cancel-Fate body f s = go f.incoming refl
  where
    out :
        (r : Receiving) (o : Option Outgoing)
        → f.incoming ≡ some r
        → Fate r (cancel_outgoing body o f)
    out r none e = kept r e refl refl
    out r (some t) e = elim (Bool-cases (is_for body t.id)) [
      | inl m ↦ rw m (kept r e refl refl)
      | inr m ↦ rw m (kept r e refl refl)
    ]

    go : (i : Option Receiving) → f.incoming ≡ i → FateOf i (cancel_incoming body i f)
    go none e = tt
    go (some r) e = elim (Bool-cases (is_for body r.transfer.id)) [
      | inl m ↦ rw m (
          left [] _ (discard r.transfer) refl refl (unfold discard in refl)
            (discard-IsSettled r.transfer (s.incoming_open r e)))
      | inr m ↦ rw m (out r f.outgoing e)
    ]

pub offer_answered-Fate :
    (shown : Option ℕ → Option ℕ) (place : Option Text) (action : Option String) (f : Files)
    → IsSound f
    → FateOf f.incoming (offer_answered shown place action f)
unfolding offer_answered
offer_answered-Fate shown place action f s = go f.incoming f.pending_offer refl refl
  where
    go :
        (i : Option Receiving) (o : Option Offer)
        → f.incoming ≡ i
        → f.pending_offer ≡ o
        → FateOf i
            (answered shown place action o (record f { prompt_id = none; pending_offer = none }))
    go none o e q = tt
    go (some r) none e q = kept r e refl refl
    go (some r) (some offer) e q = elim s.one_incoming [
      | inl a ↦ let z : none ≡ some r = sym a ∙ e in ground arith
      | inr a ↦ let z : none ≡ some offer = sym a ∙ q in ground arith
    ]
