-- ===== src/Session/Records.antt =====
-- daemon/fedoralink/session.py: one turn of `RecordReader.feed` on cut records.
use fedoralink.Prelude.{
  ℕ, suc, ◌+◌, ◌<◌, ◌≤◌, ◌≡◌, refl, ap, ◌∙◌, sym, none, List, [], ◌++◌, length, length-append,
  length-drop, take, drop, take-append_le, drop-append_le, take_append, take_append_at,
  drop_append_at, append_assoc_lem, ltb, ltb→lt, lt→ltb, le→ltb, Bool-cases, inl, inr, arith,
}
use fedoralink.Framing.{Bytes, wait, skip, emit, feed_with}
use fedoralink.Framing.Chunks.{IsFraming, drain_stops}
use fedoralink.Framing.Codec.{IsCodec, feed_chunks, feed_chunks-encode_all, encode_all, join, All}
use fedoralink.BigEndian.{digits_be, from_bytes, length-digits_be, from_bytes-digits_be}
use fedoralink.Session.{max_record_bytes, length_prefix, read_record, next_record, feed_records}

-- what a turn that yields has found
record Yields (b record_bytes rest : Bytes) : Type 0 where
  len : ℕ
  is_len : from_bytes (take 4 b) ≡ len
  positive : 0 < len
  small : len ≤ max_record_bytes
  complete : 4 + len ≤ length b
  is_record : take len (drop 4 b) ≡ record_bytes
  is_rest : drop (4 + len) b ≡ rest

read_record_yields :
    (b r rest : Bytes) (len : ℕ)
    → read_record b len ≡ emit r rest
    → (0 < len)
      × (len ≤ max_record_bytes)
      × (4 + len ≤ length b)
      × (take len (drop 4 b) ≡ r)
      × (drop (4 + len) b ≡ rest)
read_record_yields b r rest len e = ground arith

next_record-Yields : (b r rest : Bytes) → next_record b ≡ emit r rest → Yields b r rest
unfolding next_record
next_record-Yields b r rest e = elim (Bool-cases (ltb (length b) 4)) [
  | inl short ↦ absurd (ground arith)
  | inr long ↦
      let (p, s, c, x, y) = read_record_yields b r rest (from_bytes (take 4 b)) (rw long at e) in
      record {
        len = from_bytes (take 4 b);
        is_len = refl;
        positive = p;
        small = s;
        complete = c;
        is_record = x;
        is_rest = y;
      }
]

next_record_not_skip : (b r : Bytes) → next_record b ≡ skip r → ⊥
unfolding next_record
next_record_not_skip b r e = ground arith

-- a buffer that begins with the length and all the bytes of a record
next_record_complete :
    (b : Bytes) (len : ℕ)
    → from_bytes (take 4 b) ≡ len
    → 0 < len
    → len ≤ max_record_bytes
    → 4 + len ≤ length b
    → next_record b ≡ emit (take len (drop 4 b)) (drop (4 + len) b)
unfolding next_record
next_record_complete b len e p s c =
    rw (le→ltb (length b) 4 (omega arith), e)
      (rw (le→ltb max_record_bytes len s, le→ltb (length b) (4 + len) c) (ground arith))

next_record-emit_stable :
    (b r rest more : Bytes)
    → next_record b ≡ emit r rest
    → next_record (b ++ more) ≡ emit r (rest ++ more)
next_record-emit_stable b r rest more e =
    let y = next_record-Yields b r rest e in
    let t = take-append_le 4 b more (omega (arith, y.complete)) in
    next_record_complete (b ++ more) y.len (ap from_bytes t ∙ y.is_len) y.positive y.small
      (omega (arith, length-append b more, y.complete))
    ∙ rw (drop-append_le 4 b more (omega (arith, y.complete))) (
        rw
          (
            take-append_le y.len (drop 4 b) more (omega (arith, length-drop 4 b, y.complete)),
            y.is_record,
            drop-append_le (4 + y.len) b more y.complete,
            y.is_rest,
          )
          refl)

pub next_record-IsFraming : IsFraming next_record
next_record-IsFraming = record {
  skip_shrinks = λ b r e. absurd (next_record_not_skip b r e);
  skip_stable = λ b r more e. absurd (next_record_not_skip b r e);
  emit_shrinks = λ b i r e.
      let y = next_record-Yields b i r e in
      let d = ap length y.is_rest in
      omega (arith, length-drop (4 + y.len) b, y.complete, y.positive);
  emit_stable = next_record-emit_stable;
}

-- the framing that `RecordCrypto.seal` puts round a sealed record
abbrev pub frame_record : Bytes → Bytes
frame_record sealed = digits_be 4 (length sealed) ++ sealed

-- A sealed record that a reader takes.
pub record IsRecord (sealed : Bytes) : Type 0 where
  pub positive : 0 < length sealed
  pub small : length sealed ≤ max_record_bytes

length-frame : (r : Bytes) → length (frame_record r) ≡ 4 + length r
length-frame r =
    omega (arith, length-append (digits_be 4 (length r)) r, length-digits_be 4 (length r))

frame_length : (r : Bytes) → IsRecord r → from_bytes (digits_be 4 (length r)) ≡ length r
frame_length r fine = from_bytes-digits_be 4 (length r) (omega (arith, fine.small))

take_frame : (r more : Bytes) → take 4 (frame_record r ++ more) ≡ digits_be 4 (length r)
take_frame r more =
    ap (take 4) (append_assoc_lem (digits_be 4 (length r)) r more)
    ∙ take_append_at 4 (digits_be 4 (length r)) (r ++ more) (sym (length-digits_be 4 (length r)))

drop_frame : (r more : Bytes) → drop 4 (frame_record r ++ more) ≡ r ++ more
drop_frame r more =
    ap (drop 4) (append_assoc_lem (digits_be 4 (length r)) r more)
    ∙ drop_append_at 4 (digits_be 4 (length r)) (r ++ more) (sym (length-digits_be 4 (length r)))

next_record_whole :
    (r more : Bytes) → IsRecord r → next_record (frame_record r ++ more) ≡ emit r more
next_record_whole r more fine =
    next_record_complete (frame_record r ++ more) (length r)
      (ap from_bytes (take_frame r more) ∙ frame_length r fine) fine.positive fine.small
      (omega (arith, length-append (frame_record r) more, length-frame r))
    ∙ rw
        (
          drop_frame r more,
          take_append r more,
          drop_append_at (4 + length r) (frame_record r) more (sym (length-frame r)),
        )
        refl

-- a buffer with a whole prefix and a part of the record
next_record_wait :
    (b : Bytes) (len : ℕ)
    → from_bytes (take 4 b) ≡ len
    → 0 < len
    → len ≤ max_record_bytes
    → length b < 4 + len
    → next_record b ≡ wait
unfolding next_record
next_record_wait b len e p s c = elim (Bool-cases (ltb (length b) 4)) [
  | inl short ↦ rw short refl
  | inr long ↦
      rw (long, e)
        (rw (le→ltb max_record_bytes len s, lt→ltb (length b) (4 + len) c) (ground arith))
]

next_record_short : (b : Bytes) → length b < 4 → next_record b ≡ wait
unfolding next_record
next_record_short b h = rw (lt→ltb (length b) 4 h) refl

next_record_part :
    (r b y more : Bytes)
    → IsRecord r
    → b ++ y ≡ frame_record r ++ more
    → length b < length (frame_record r)
    → next_record b ≡ wait
next_record_part r b y more fine e h = elim (Bool-cases (ltb (length b) 4)) [
  | inl short ↦ next_record_short b (ltb→lt _ _ short)
  | inr long ↦
      let t = sym (take-append_le 4 b y (ground arith)) ∙ ap (take 4) e ∙ take_frame r more in
      next_record_wait b (length r) (ap from_bytes t ∙ frame_length r fine) fine.positive fine.small
        (omega (arith, length-frame r))
]

pub next_record-IsCodec : IsCodec next_record frame_record IsRecord
next_record-IsCodec = record {
  nothing = next_record_short [] (omega arith);
  whole = next_record_whole;
  part = next_record_part;
}

-- Framed records that are not empty and within the limit, cut into any chunks, come out of the
-- reader as they were, in order, with no error and nothing left in the buffer.
pub feed_chunks-frame_record :
    (records chunks : List Bytes)
    → All IsRecord records
    → join chunks ≡ encode_all frame_record records
    → feed_chunks next_record [] chunks ≡ record { items = records; buffer = []; error = none }
feed_chunks-frame_record records chunks =
    feed_chunks-encode_all next_record frame_record IsRecord next_record-IsFraming
      next_record-IsCodec records chunks

wait_bounded : (b : Bytes) → next_record b ≡ wait → length b < length_prefix + max_record_bytes
unfolding next_record
wait_bounded b e = elim (Bool-cases (ltb (length b) 4)) [
  | inl short ↦ omega (arith, ltb→lt _ _ short)
  | inr long ↦ waits (from_bytes (take 4 b)) (rw long at e)
]
  where
    waits : (len : ℕ) → read_record b len ≡ wait → length b < length_prefix + max_record_bytes
    waits len e = ground arith

-- A call of `feed` that does not raise leaves less than a prefix and the largest record, whatever
-- length the peer claimed.
pub length-feed_records :
    (buf chunk : Bytes)
    → (feed_records buf chunk).error ≡ none
    → length (feed_records buf chunk).buffer < length_prefix + max_record_bytes
unfolding feed_records
length-feed_records buf chunk ok = wait_bounded _ (
    unfold feed_with in
    drain_stops next_record next_record-IsFraming (suc (length (buf ++ chunk))) (buf ++ chunk)
      (omega arith) ok)
