-- ===== src/Transfers/Whole.antt =====
-- daemon/fedoralink/transfers.py: what `OutgoingTransfer` reads, given to `IncomingTransfer`.
use fedoralink.Prelude.{
  ℕ, zero, suc, ◌+◌, ◌≤◌, ◌<◌, ◌≡◌, refl, ap, ◌∙◌, sym, String, true, false, Option, none, some,
  List, [], ◌∷◌, ◌++◌, length, length-append, length-take, length-drop, take, drop,
  take-append-drop, arith, Bool-cases, inl, inr, append_assoc_lem, append-nil, is_empty, eq_refl,
  le→ltb, ==_iff, str_eq,
}
use fedoralink.Json.{Json, int, str, as_text, as_str}
use fedoralink.Framing.{Bytes}
use fedoralink.Transfers.{ok, chunk_bytes}
use fedoralink.Transfers.Incoming.{
  Hashing, moves, Incoming, open_incoming, as_seq, Reply, done, error, write_chunk, hash_ok, finish,
}
use fedoralink.Transfers.Outgoing.{Outgoing, open_outgoing, next_chunk, advance, sha256}

abbrev keep_reading :
    (Outgoing → List (ℕ × Bytes) × Outgoing)
    → Option (ℕ × Bytes) × Outgoing
    → List (ℕ × Bytes) × Outgoing
keep_reading k (none, t) = ([], t)
keep_reading k (some c, t) = let r = k t in (c ∷ r.0, r.1)

-- the calls of `next_chunk` until it returns None, on fuel
pub read_all : ℕ → Outgoing → List (ℕ × Bytes) × Outgoing
read_all zero t = ([], t)
read_all (suc fuel) t = keep_reading (read_all fuel) (next_chunk t)

abbrev keep_writing :
    (Incoming → Reply (Unit {0}) × Incoming)
    → Reply (Unit {0}) × Incoming
    → Reply (Unit {0}) × Incoming
keep_writing k (done _, t) = k t
keep_writing k (error e, t) = (error e, t)

-- the calls of `write_chunk` until one raises
pub write_all : List (ℕ × Bytes) → Incoming → Reply (Unit {0}) × Incoming
write_all [] t = (done tt, t)
write_all ((seq, bytes) ∷ more) t = keep_writing (write_all more) (write_chunk (int seq) bytes t)

-- the two ends in step, `left` being what is still to be read
pub record InStep (o : Outgoing) (t : Incoming) (whole : Bytes) : Type 0 where
  pub same_seq : o.next_seq ≡ t.next_seq
  pub same_bytes : o.hashed ≡ t.content
  pub counted : t.received ≡ length t.content
  pub cut : t.content ++ o.unread ≡ whole
  pub sized : t.size ≡ length whole
  pub in_temp : t.temp ≡ some t.content
  pub reading : o.closed ≡ false
  pub writing : t.closed ≡ false

-- what is left when the file has been read
record AllMoved (r : Reply (Unit {0}) × Incoming) (o : Outgoing) (whole : Bytes) : Type 0 where
  accepted : r.0 ≡ done tt
  content : r.1.content ≡ whole
  received : r.1.received ≡ r.1.size
  in_temp : r.1.temp ≡ some whole
  writing : r.1.closed ≡ false
  hashed : o.hashed ≡ whole

pub next_chunk_end :
    (o : Outgoing)
    → o.closed ≡ false
    → is_empty (take chunk_bytes o.unread) ≡ true
    → next_chunk o ≡ (none, o)
unfolding next_chunk
next_chunk_end o h e = simp (h, e)

pub next_chunk_more :
    (o : Outgoing)
    → o.closed ≡ false
    → is_empty (take chunk_bytes o.unread) ≡ false
    → next_chunk o
      ≡ (some (o.next_seq, take chunk_bytes o.unread), advance o (take chunk_bytes o.unread))
unfolding next_chunk
next_chunk_more o h e = simp (h, e)

pub write_chunk_next :
    (n : ℕ) (bytes : Bytes) (t : Incoming)
    → t.closed ≡ false
    → n ≡ t.next_seq
    → t.received + length bytes ≤ t.size
    → write_chunk (int n) bytes t ≡ (
      done tt,
      record t {
        content = t.content ++ bytes;
        temp = some (t.content ++ bytes);
        received = t.received + length bytes;
        next_seq = t.next_seq + 1;
      },
    )
unfolding write_chunk as_seq
write_chunk_next n bytes t h e fits =
    simp (h, (==_iff n t.next_seq).1 e, le→ltb t.size (t.received + length bytes) fits)

pub nothing_taken : (n : ℕ) (xs : Bytes) → is_empty (take (suc n) xs) ≡ true → xs ≡ []
nothing_taken n [] e = refl
nothing_taken n (x ∷ xs) e = cc

pub some_taken : (n : ℕ) (xs : Bytes) → is_empty (take (suc n) xs) ≡ false → 0 < length xs
some_taken n [] e = cc
some_taken n (x ∷ xs) e = omega arith

-- the transfer that has taken the bytes
abbrev pub written : Bytes → Incoming → Incoming
written bytes t = record t {
  content = t.content ++ bytes;
  temp = some (t.content ++ bytes);
  received = t.received + length bytes;
  next_seq = t.next_seq + 1;
}

pub chunk_fits :
    (o : Outgoing) (t : Incoming) (whole : Bytes)
    → InStep o t whole
    → t.received + length (take chunk_bytes o.unread) ≤ t.size
chunk_fits o t whole s =
    let l = ap length s.cut in
    let k = length-append t.content o.unread in
    let b = length-take chunk_bytes o.unread in omega (arith, s.counted, s.sized)

pub advance-InStep :
    (o : Outgoing) (t : Incoming) (whole : Bytes)
    → InStep o t whole
    → InStep (advance o (take chunk_bytes o.unread)) (written (take chunk_bytes o.unread) t) whole
advance-InStep o t whole s =
    let bytes = take chunk_bytes o.unread in
    record {
      same_seq = ap (λ x. x + 1) s.same_seq;
      same_bytes = ap (λ x. x ++ bytes) s.same_bytes;
      counted = omega (arith, length-append t.content bytes, s.counted);
      cut =
          append_assoc_lem t.content bytes (drop chunk_bytes o.unread)
          ∙ ap (λ x. t.content ++ x) (take-append-drop chunk_bytes o.unread)
          ∙ s.cut;
      sized = s.sized;
      in_temp = refl;
      reading = s.reading;
      writing = s.writing;
    }

-- Once nothing is left to read, everything is written.
pub all_written :
    (o : Outgoing) (t : Incoming) (whole : Bytes)
    → InStep o t whole
    → is_empty (take chunk_bytes o.unread) ≡ true
    → (t.content ≡ whole) × (t.received ≡ t.size)
all_written o t whole s e =
    let u : o.unread ≡ [] = nothing_taken 32767 o.unread e in
    let c : t.content ≡ whole = sym (append-nil t.content) ∙ rw u at s.cut in
    let l = ap length c in (c, omega (arith, s.counted, s.sized))

moved :
    (fuel : ℕ) (o : Outgoing) (t : Incoming) (whole : Bytes)
    → length o.unread < fuel
    → InStep o t whole
    → AllMoved (write_all (read_all fuel o).0 t) (read_all fuel o).1 whole
unfolding read_all write_all
moved zero o t whole h s = absurd (omega arith)
moved (suc fuel) o t whole h s = elim (Bool-cases (is_empty (take chunk_bytes o.unread))) [
  | inl e ↦
      let (c, received) = all_written o t whole s e in
      rw (next_chunk_end o s.reading e) (record {
        accepted = refl;
        content = c;
        received = received;
        in_temp = s.in_temp ∙ ap some c;
        writing = s.writing;
        hashed = s.same_bytes ∙ c;
      })
  | inr e ↦
      let bytes = take chunk_bytes o.unread in
      let pos = some_taken 32767 o.unread e in
      let d = length-drop chunk_bytes o.unread in
      rw (next_chunk_more o s.reading e) (
        rw (write_chunk_next o.next_seq bytes t s.writing s.same_seq (chunk_fits o t whole s)) (
          moved fuel (advance o bytes) (written bytes t) whole (omega arith)
            (advance-InStep o t whole s)))
]

pub opened_is :
    (id : String) (content : Bytes) (o : Outgoing)
    → open_outgoing id content ≡ ok o
    → (o.size ≡ length content)
      × (o.next_seq ≡ 0)
      × (o.hashed ≡ [])
      × (o.unread ≡ content)
      × (o.closed ≡ false)
unfolding open_outgoing
opened_is id content o e = ground arith

-- the digest of a content is the hash that is expected of it
pub hash_matches :
    (h : Hashing) (content : Bytes)
    → h.lower (h.hexdigest content) ≡ h.hexdigest content
    → hash_ok h content (as_text (str (h.hexdigest content))) ≡ true
unfolding as_text as_str
hash_matches h content low = elim (Bool-cases (str_eq (h.hexdigest content) "")) [
  | inl e ↦ rw e refl
  | inr e ↦ rw (e, low) (eq_refl (h.hexdigest content))
]

pub finish_saves :
    (h : Hashing) (expected : Json) (t : Incoming)
    → t.closed ≡ false
    → t.received ≡ t.size
    → hash_ok h t.content (as_text expected) ≡ true
    → finish h moves expected t
      ≡ (done tt, record t { closed = true; target = t.temp; temp = none })
unfolding finish
finish_saves h expected t open_now whole right =
    simp (open_now, (==_iff t.received t.size).1 whole, right)

-- A file within the limit that one side reads to its end and the other writes chunk by chunk is
-- put in place whole, with the very content, when its hash is sent along: every chunk is taken,
-- and `finish` succeeds if `close` and the rename do.
pub finish-read_all :
    (h : Hashing) (id : String) (content : Bytes) (target : Option Bytes) (o : Outgoing) (fuel : ℕ)
    → h.lower (h.hexdigest content) ≡ h.hexdigest content
    → open_outgoing id content ≡ ok o
    → length content < fuel
    → let sent = read_all fuel o in
      let got = write_all sent.0 (open_incoming id o.size target) in
      (got.0 ≡ done tt)
      × ((finish h moves (str (sha256 h sent.1)) got.1).0 ≡ done tt)
      × ((finish h moves (str (sha256 h sent.1)) got.1).1.target ≡ some content)
unfolding open_incoming sha256
finish-read_all h id content target o fuel low opened enough =
    let (size, seq, hashed, unread, reading) = opened_is id content o opened in
    let start : InStep o (open_incoming id o.size target) content = record {
      same_seq = seq;
      same_bytes = hashed;
      counted = refl;
      cut = unread;
      sized = size;
      in_temp = refl;
      reading = reading;
      writing = refl;
    } in
    let m = moved fuel o (open_incoming id o.size target) content (rw unread enough) start in
    let end =
      finish_saves h (str (h.hexdigest content))
        (write_all (read_all fuel o).0 (open_incoming id o.size target)).1 m.writing m.received
        (rw m.content (hash_matches h content low)) in
    let all =
      ap
        (λ x.
          finish h moves (str (h.hexdigest x))
            (write_all (read_all fuel o).0 (open_incoming id o.size target)).1)
        m.hashed
      ∙ end in
    (
      m.accepted,
      ap (λ (r : Reply (Unit {0}) × Incoming). r.0) all,
      ap (λ (r : Reply (Unit {0}) × Incoming). r.1.target) all ∙ m.in_temp,
    )
