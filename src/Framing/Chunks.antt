-- ===== src/Framing/Chunks.antt =====
-- The loop of protocol.py and session.py, and the places where a stream is cut into chunks.
use fedoralink.Prelude.{
  ℕ, zero, suc, ◌<◌, ◌≡◌, refl, ap, none, ◌++◌, length, length-append, append_assoc_lem, arith,
}
use fedoralink.Framing.{
  Bytes, Next, wait, fail, skip, emit, idle, push, prepend, after, drain, feed_with,
}

-- What a reader's turn must satisfy: a turn that goes on drops at least one byte, and does the
-- same whatever has arrived behind the bytes that it took.
pub record IsFraming {I E : Type 0} (next : Bytes → Next I E) : Type 0 where
  pub skip_shrinks : (b r : Bytes) → next b ≡ skip r → length r < length b
  pub emit_shrinks : (b : Bytes) (i : I) (r : Bytes) → next b ≡ emit i r → length r < length b
  pub skip_stable : (b r more : Bytes) → next b ≡ skip r → next (b ++ more) ≡ skip (r ++ more)
  pub emit_stable :
      (b : Bytes) (i : I) (r more : Bytes)
      → next b ≡ emit i r
      → next (b ++ more) ≡ emit i (r ++ more)

pub Next-cases :
    {I E : Type 0} (P : Next I E → Type 0) (t : Next I E)
    → (t ≡ wait → P wait)
    → ((r : Bytes) (e : E) → t ≡ fail r e → P (fail r e))
    → ((r : Bytes) → t ≡ skip r → P (skip r))
    → ((i : I) (r : Bytes) → t ≡ emit i r → P (emit i r))
    → P t
Next-cases P wait w f s m = w refl
Next-cases P (fail r e) w f s m = f r e refl
Next-cases P (skip r) w f s m = s r refl
Next-cases P (emit i r) w f s m = m i r refl

pub drain_wait :
    {I E : Type 0} (next : Bytes → Next I E) (n : ℕ) (b : Bytes)
    → next b ≡ wait
    → drain next n b ≡ idle b
unfolding drain
drain_wait next zero b w = refl
drain_wait next (suc n) b w = rw w refl

module _ {I E : Type 0} (next : Bytes → Next I E) (law : IsFraming next) where
  -- more fuel than bytes makes no difference
  pub drain_fuel :
      (n m : ℕ) (b : Bytes) → length b < n → length b < m → drain next n b ≡ drain next m b
  unfolding drain
  drain_fuel zero m b h k = absurd (omega arith)
  drain_fuel (suc n) zero b h k = absurd (omega arith)
  drain_fuel (suc n) (suc m) b h k =
      Next-cases (λ t. after b (drain next n) t ≡ after b (drain next m) t) (next b) (λ _. refl)
        (λ r e _. refl)
        (λ r p. let s = law.skip_shrinks b r p in drain_fuel n m r (omega arith) (omega arith))
        (λ i r p.
          let s = law.emit_shrinks b i r p in
          ap (push i) (drain_fuel n m r (omega arith) (omega arith)))

  -- if the loop ends without an error on `b`, then behind `b` it goes on from what it left
  drain_more :
      (n m k : ℕ) (b more : Bytes)
      → length b < n
      → length (b ++ more) < m
      → length ((drain next n b).buffer ++ more) < k
      → (drain next n b).error ≡ none
      → drain next m (b ++ more)
        ≡ prepend (drain next n b).items (drain next k ((drain next n b).buffer ++ more))
  unfolding drain
  drain_more zero m k b more h hm hk ok = absurd (omega arith)
  drain_more (suc n) zero k b more h hm hk ok = absurd (omega arith)
  drain_more (suc n) (suc m) k b more h hm hk ok =
      Next-cases
        (λ t.
          length ((after b (drain next n) t).buffer ++ more) < k
          → (after b (drain next n) t).error ≡ none
          → drain next (suc m) (b ++ more)
            ≡ prepend (after b (drain next n) t).items
                (drain next k ((after b (drain next n) t).buffer ++ more)))
        (next b) (λ _ hk' _. drain_fuel (suc m) k (b ++ more) hm hk') (λ r e p hk' bad. cc)
        (λ r p hk' ok'.
          let s = law.skip_shrinks b r p in
          rw (law.skip_stable b r more p) (
            drain_more n m k r more (omega arith)
              (omega (arith, length-append r more, length-append b more)) hk' ok'))
        (λ i r p hk' ok'.
          let s = law.emit_shrinks b i r p in
          rw (law.emit_stable b i r more p) (
            ap (push i) (
              drain_more n m k r more (omega arith)
                (omega (arith, length-append r more, length-append b more)) hk' ok')))
        hk ok

  -- Bytes fed in two chunks give what they give in one.
  pub feed_with-append :
      (buf a b : Bytes)
      → (feed_with next buf a).error ≡ none
      → feed_with next buf (a ++ b)
        ≡ prepend (feed_with next buf a).items (feed_with next (feed_with next buf a).buffer b)
  unfolding feed_with
  feed_with-append buf a b ok =
      rw (← append_assoc_lem buf a b)
        (drain_more _ _ _ (buf ++ a) b (omega arith) (omega arith) (omega arith) ok)

  -- When the loop ends without an error it has stopped at a `return`.
  pub drain_stops :
      (n : ℕ) (b : Bytes)
      → length b < n
      → (drain next n b).error ≡ none
      → next (drain next n b).buffer ≡ wait
  unfolding drain
  drain_stops zero b h ok = absurd (omega arith)
  drain_stops (suc n) b h ok =
      Next-cases
        (λ t.
          (after b (drain next n) t).error ≡ none
          → next b ≡ t
          → next (after b (drain next n) t).buffer ≡ wait)
        (next b) (λ _ _ p. p) (λ r e _ bad _. cc)
        (λ r p ok' _. let s = law.skip_shrinks b r p in drain_stops n r (omega arith) ok')
        (λ i r p ok' _. let s = law.emit_shrinks b i r p in drain_stops n r (omega arith) ok') ok
        refl
