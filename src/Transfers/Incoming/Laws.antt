-- ===== src/Transfers/Incoming/Laws.antt =====
-- daemon/fedoralink/transfers.py: the accounting of an incoming transfer, and its end.
use mathlib.Core.Option.{some-injective}
use fedoralink.Prelude.{
  ℕ, ◌+◌, ◌≤◌, ◌<◌, ◌≡◌, refl, ap, sym, ◌∙◌, str_eq, eq_iff, if◌then◌else◌, String, true, false,
  Option, none, some, length, length-append, ltb, ◌==◌, arith, Bool-cases, inl, inr, ◌↔◌,
}
use fedoralink.Json.{Json, as_text}
use fedoralink.Framing.{Bytes}
use fedoralink.Transfers.{finished, ended_early, hash_mismatch, not_saved}
use fedoralink.Transfers.Incoming.{
  Hashing, Saving, Incoming, open_incoming, Seq, missing, negative, number, as_seq, Reply, done,
  error, write_at, write_chunk, hash_ok, rename, finish, discard, moves, stays, cuts,
}

-- What is counted is what was written, in the .part file and in the digest alike, and it is never
-- more than was declared.
pub record IsAccounted (t : Incoming) : Type 0 where
  pub counted : t.received ≡ length t.content
  pub bounded : t.received ≤ t.size
  pub in_temp : t.closed ≡ false → t.temp ≡ some t.content

-- A new transfer is accounted for.
pub open_incoming-IsAccounted :
    (id : String) (size : ℕ) (target : Option Bytes) → IsAccounted (open_incoming id size target)
unfolding open_incoming
open_incoming-IsAccounted id size target = record {
  counted = refl;
  bounded = omega arith;
  in_temp = λ _. refl;
}

write_at-IsAccounted :
    (bytes : Bytes) (t : Incoming) (s : Seq) → IsAccounted t → IsAccounted (write_at bytes t s).1
write_at-IsAccounted bytes t missing a = a
write_at-IsAccounted bytes t negative a = a
write_at-IsAccounted bytes t (number n) a = elim (Bool-cases (n == t.next_seq)) [
  | inl e ↦ elim (Bool-cases (ltb t.size (t.received + length bytes))) [
    | inl big ↦ rw (e, big) a
    | inr fits ↦
        rw (e, fits)
          (record {
            counted = omega (arith, length-append t.content bytes, a.counted);
            bounded = ground arith;
            in_temp = λ _. refl;
          })
  ]
  | inr e ↦ rw e a
]

-- Every chunk, taken or refused, keeps the account of a transfer: the count is the number of bytes
-- written, it is at most the declared size, and the .part file of an open transfer holds them.
pub write_chunk-IsAccounted :
    (seq : Json) (bytes : Bytes) (t : Incoming)
    → IsAccounted t
    → IsAccounted (write_chunk seq bytes t).1
unfolding write_chunk
write_chunk-IsAccounted seq bytes t a = elim (Bool-cases t.closed) [
  | inl e ↦ simp e a
  | inr e ↦ simp e (write_at-IsAccounted bytes t (as_seq seq) a)
]

-- the bytes of the file that is in place then
abbrev pub left_by : Saving → Bytes → Bytes
left_by moves written = written
left_by stays written = written
left_by (cuts left) written = left

-- How a call of `finish` on an open transfer ends. A hash is a text that is not empty; without one
-- there is nothing to compare with.
pub data Ended (h : Hashing) (saving : Saving) (expected : Json) (t : Incoming)
    : Reply (Unit {0}) × Incoming → Type 0 where
  saved :
      (t' : Incoming)
      → length t.content ≡ t.size
      → ((hash : String) → as_text expected ≡ some hash → h.hexdigest t.content ≡ h.lower hash)
      → t'.target ≡ some (left_by saving t.content)
      → t'.temp ≡ none
      → Ended h saving expected t (done tt, t')
  too_short :
      (t' : Incoming)
      → length t.content < t.size
      → t'.target ≡ t.target
      → t'.temp ≡ none
      → Ended h saving expected t (error ended_early, t')
  wrong_hash :
      (hash : String) (t' : Incoming)
      → as_text expected ≡ some hash
      → ¬ (h.hexdigest t.content ≡ h.lower hash)
      → t'.target ≡ t.target
      → t'.temp ≡ none
      → Ended h saving expected t (error hash_mismatch, t')
  not_moved :
      (t' : Incoming)
      → saving ≡ stays
      → t'.target ≡ t.target
      → t'.temp ≡ none
      → Ended h saving expected t (error not_saved, t')

-- Finishing an open transfer, with its bytes accounted for: a file that is too short, one whose hash
-- is not the one that was sent along, and one that cannot be moved are refused, each with its own
-- error, and leave the destination as it was and no .part file. Any other has come in with as many
-- bytes as were declared and, if a hash was sent along, with that hash, and it is in place
-- afterwards; with no hash sent there is no check of it, and if `close` failed, the file in place is
-- what the disk took.
pub finish-Ended :
    (h : Hashing) (saving : Saving) (expected : Json) (t : Incoming)
    → IsAccounted t
    → t.closed ≡ false
    → Ended h saving expected t (finish h saving expected t)
unfolding finish
finish-Ended h saving expected t a open_now = elim (Bool-cases (t.received == t.size)) [
  | inl whole ↦ simp (open_now, whole) (checked (as_text expected) refl (ground arith))
  | inr short ↦
      simp (open_now, short) (too_short _ (ground (arith, a.counted, a.bounded)) refl refl)
]
  where
    closed_now : Incoming
    closed_now = record t { closed = true }

    renamed :
        (s : Saving)
        → s ≡ saving
        → ((hash : String) → as_text expected ≡ some hash → h.hexdigest t.content ≡ h.lower hash)
        → length t.content ≡ t.size
        → Ended h saving expected t (rename s closed_now)
    renamed moves e right len =
        saved _ len right (a.in_temp open_now ∙ ap (λ s. some (left_by s t.content)) e) refl
    renamed stays e right len = not_moved _ (sym e) refl refl
    renamed (cuts left) e right len =
        saved _ len right (ap (λ s. some (left_by s t.content)) e) refl

    checked :
        (o : Option String)
        → as_text expected ≡ o
        → length t.content ≡ t.size
        → Ended h saving expected t (
            if hash_ok h t.content o
            then rename saving closed_now
            else (error hash_mismatch, discard closed_now))
    checked none e len = renamed saving refl (λ hash q. cc) len
    checked (some hash) e len = elim (Bool-cases (str_eq (h.hexdigest t.content) (h.lower hash))) [
      | inl m ↦ rw m (
          renamed saving refl
            (λ other q.
              (eq_iff (h.hexdigest t.content) (h.lower hash)).0 m
              ∙ ap h.lower (some-injective _ _ (sym e ∙ q)))
            len)
      | inr m ↦ rw m (wrong_hash hash _ e (λ q. cc (m, (eq_iff _ _).1 q)) refl refl)
    ]

-- After `finish` or `discard` nothing more is written.
pub write_chunk_over :
    (seq : Json) (bytes : Bytes) (t : Incoming)
    → t.closed ≡ true
    → write_chunk seq bytes t ≡ (error finished, t)
unfolding write_chunk
write_chunk_over seq bytes t h = simp h

-- An open transfer takes a chunk exactly when it carries the next sequence number and the bytes
-- still fit the declared size.
pub write_chunk-done :
    (seq : Json) (bytes : Bytes) (t : Incoming)
    → t.closed ≡ false
    → ((write_chunk seq bytes t).0 ≡ done tt)
      ↔ ((as_seq seq ≡ number t.next_seq) × (t.received + length bytes ≤ t.size))
unfolding write_chunk
write_chunk-done seq bytes t h = simp h (taken (as_seq seq))
  where
    taken :
        (s : Seq)
        → ((write_at bytes t s).0 ≡ done tt)
          ↔ ((s ≡ number t.next_seq) × (t.received + length bytes ≤ t.size))
    taken missing = ((λ e. cc), (λ e. cc (e.0)))
    taken negative = ((λ e. cc), (λ e. cc (e.0)))
    taken (number n) = ((λ e. ground arith), (λ e. ground arith))
