-- ===== src/Protocol/Laws.antt =====
-- daemon/fedoralink/protocol.py: one turn of `PacketReader.feed` on cut lines.
use fedoralink.Prelude.{
  ℕ, ◌+◌, ◌<◌, ◌≡◌, refl, ap, some, [], ◌∷◌, ◌++◌, length, length-drop, take, drop, take-append_le,
  drop-append_le, Option-cases, inl, inr, arith,
}
use fedoralink.Json.{Fields}
use fedoralink.Framing.{Bytes, Next, skip, emit}
use fedoralink.Framing.Chunks.{IsFraming}
use fedoralink.Protocol.{JsonText, ProtocolError, find_byte, read_line, next_packet}

pub find_byte-lt : (b : ℕ) (xs : Bytes) (i : ℕ) → find_byte b xs ≡ some i → i < length xs
unfolding find_byte
find_byte-lt b [] i e = cc
find_byte-lt b (x ∷ xs) i e = elim (Option-cases (find_byte b xs)) [
  | inl p ↦ ground arith
  | inr (j, p) ↦ ground (arith, find_byte-lt b xs j p)
]

pub find_byte-append :
    (b : ℕ) (xs ys : Bytes) (i : ℕ) → find_byte b xs ≡ some i → find_byte b (xs ++ ys) ≡ some i
unfolding find_byte
find_byte-append b [] ys i e = cc
find_byte-append b (x ∷ xs) ys i e = elim (Option-cases (find_byte b xs)) [
  | inl p ↦ ground arith
  | inr (j, p) ↦ ground (arith, find_byte-append b xs ys j p)
]

module _ (text : JsonText) where
  -- where a turn goes on, it goes on behind the first newline
  data Goes (b : Bytes) (t : Next Fields ProtocolError) : Type 0 where
    goes :
        (i : ℕ)
        → find_byte b'\n' b ≡ some i
        → read_line text (take i b) (drop (i + 1) b) ≡ t
        → Goes b t

  Goes-skip : (b r : Bytes) → next_packet text b ≡ skip r → Goes b (skip r)
  unfolding next_packet
  Goes-skip b r e = elim (Option-cases (find_byte b'\n' b)) [
    | inl p ↦ ground arith
    | inr (i, p) ↦ goes i p (rw p at e)
  ]

  Goes-emit :
      (b : Bytes) (f : Fields) (r : Bytes) → next_packet text b ≡ emit f r → Goes b (emit f r)
  unfolding next_packet
  Goes-emit b f r e = elim (Option-cases (find_byte b'\n' b)) [
    | inl p ↦ ground arith
    | inr (i, p) ↦ goes i p (rw p at e)
  ]

  -- the bytes behind a line are what is left of them
  pub read_line_skip : (l s r : Bytes) → read_line text l s ≡ skip r → s ≡ r
  unfolding read_line
  read_line_skip l s r e = ground arith

  pub read_line-emit :
      (l s : Bytes) (f : Fields) (r : Bytes) → read_line text l s ≡ emit f r → s ≡ r
  unfolding read_line
  read_line-emit l s f r e = ground arith

  pub read_line_skip_stable :
      (l s r s' : Bytes) → read_line text l s ≡ skip r → read_line text l s' ≡ skip s'
  unfolding read_line
  read_line_skip_stable l s r s' e = ground arith

  pub read_line-emit_stable :
      (l s : Bytes) (f : Fields) (r s' : Bytes)
      → read_line text l s ≡ emit f r
      → read_line text l s' ≡ emit f s'
  unfolding read_line
  read_line-emit_stable l s f r s' e = ground arith

  next_packet_skip_shrinks : (b r : Bytes) → next_packet text b ≡ skip r → length r < length b
  next_packet_skip_shrinks b r e = let go = Goes-skip b r e in use_goes go
    where
      use_goes : Goes b (skip r) → length r < length b
      use_goes (goes i p q) =
          let s = find_byte-lt b'\n' b i p in
          let d = ap length (read_line_skip _ _ _ q) in omega (arith, length-drop (i + 1) b)

  next_packet-emit_shrinks :
      (b : Bytes) (f : Fields) (r : Bytes) → next_packet text b ≡ emit f r → length r < length b
  next_packet-emit_shrinks b f r e = use_goes (Goes-emit b f r e)
    where
      use_goes : Goes b (emit f r) → length r < length b
      use_goes (goes i p q) =
          let s = find_byte-lt b'\n' b i p in
          let d = ap length (read_line-emit _ _ _ _ q) in omega (arith, length-drop (i + 1) b)

  -- behind the first newline, more bytes only lengthen what is left
  next_packet-append :
      (b more : Bytes) (i : ℕ)
      → find_byte b'\n' b ≡ some i
      → next_packet text (b ++ more) ≡ read_line text (take i b) (drop (i + 1) b ++ more)
  unfolding next_packet
  next_packet-append b more i p =
      let s = find_byte-lt b'\n' b i p in
      rw (find_byte-append b'\n' b more i p) (
        rw (take-append_le i b more (omega arith), drop-append_le (i + 1) b more (omega arith))
          refl)

  next_packet_skip_stable :
      (b r more : Bytes)
      → next_packet text b ≡ skip r
      → next_packet text (b ++ more) ≡ skip (r ++ more)
  next_packet_skip_stable b r more e = use_goes (Goes-skip b r e)
    where
      use_goes : Goes b (skip r) → next_packet text (b ++ more) ≡ skip (r ++ more)
      use_goes (goes i p q) =
          rw (next_packet-append b more i p, ← read_line_skip _ _ _ q)
            (read_line_skip_stable _ _ _ _ q)

  next_packet-emit_stable :
      (b : Bytes) (f : Fields) (r more : Bytes)
      → next_packet text b ≡ emit f r
      → next_packet text (b ++ more) ≡ emit f (r ++ more)
  next_packet-emit_stable b f r more e = use_goes (Goes-emit b f r e)
    where
      use_goes : Goes b (emit f r) → next_packet text (b ++ more) ≡ emit f (r ++ more)
      use_goes (goes i p q) =
          rw (next_packet-append b more i p, ← read_line-emit _ _ _ _ q)
            (read_line-emit_stable _ _ _ _ _ q)

  pub next_packet-IsFraming : IsFraming (next_packet text)
  next_packet-IsFraming = record {
    skip_shrinks = next_packet_skip_shrinks;
    emit_shrinks = next_packet-emit_shrinks;
    skip_stable = next_packet_skip_stable;
    emit_stable = next_packet-emit_stable;
  }
