-- ===== src/Framing/Codec.antt =====
-- The loop of protocol.py and session.py, on a stream of encoded items.
use fedoralink.Prelude.{
  ℕ, zero, suc, ◌<◌, ◌≡◌, refl, ap, Option, none, some, List, [], ◌∷◌, ◌++◌, length, append_split,
  append-nil, append_assoc_lem, arith, ltb, Bool-cases, inl, inr, ltb→lt, sym, ◌∙◌,
}
use fedoralink.Framing.{Bytes, Next, wait, emit, Outcome, idle, prepend, drain, feed_with}
use fedoralink.Framing.Chunks.{IsFraming, drain_stops}

module _ {I E : Type 0} where
  -- goes on from what a chunk left, unless it raised
  abbrev pub carry_on : Outcome I E → (Bytes → Outcome I E) → Option E → Outcome I E
  carry_on o k none = prepend o.items (k o.buffer)
  carry_on o k (some e) = o

  -- a reader is fed chunk by chunk until it raises
  unfoldable pub feed_chunks : (Bytes → Next I E) → Bytes → List Bytes → Outcome I E
  feed_chunks next buf [] = idle buf
  feed_chunks next buf (c ∷ cs) =
      let o = feed_with next buf c in carry_on o (λ b. feed_chunks next b cs) o.error

abbrev pub join : List Bytes → Bytes
join [] = []
join (c ∷ cs) = c ++ join cs

abbrev pub encode_all {ℓ} : {I : Type ℓ} → (I → Bytes) → List I → Bytes
encode_all encode [] = []
encode_all encode (i ∷ is) = encode i ++ encode_all encode is

abbrev pub All {ℓ κ} : {A : Type ℓ} → (A → Type κ) → List A → Type κ
All P [] = Unit
All P (x ∷ xs) = P x × All P xs

pub All-append {ℓ κ} :
    {A : Type ℓ} (P : A → Type κ) (xs ys : List A) → All P (xs ++ ys) → All P xs × All P ys
All-append P [] ys h = (tt, h)
All-append P (x ∷ xs) ys h = let (a, b) = All-append P xs ys h.1 in ((h.0, a), b)

pub append-All {ℓ κ} :
    {A : Type ℓ} (P : A → Type κ) (xs ys : List A) → All P xs → All P ys → All P (xs ++ ys)
append-All P [] ys a b = b
append-All P (x ∷ xs) ys (a, more) b = (a, append-All P xs ys more b)

-- The reader yields an item once its code is complete, and waits while only a part is there.
pub record IsCodec {I E : Type 0} (next : Bytes → Next I E) (encode : I → Bytes)
    (IsFine : I → Type 0) : Type 0 where
  pub nothing : next [] ≡ wait
  pub whole : (i : I) (more : Bytes) → IsFine i → next (encode i ++ more) ≡ emit i more
  pub part :
      (i : I) (b y more : Bytes)
      → IsFine i
      → b ++ y ≡ encode i ++ more
      → length b < length (encode i)
      → next b ≡ wait

module _ {I E : Type 0} (next : Bytes → Next I E) (encode : I → Bytes) (IsFine : I → Type 0)
    (law : IsFraming next) (codec : IsCodec next encode IsFine) where
  -- where the loop stops inside a stream of codes
  pub record StopsIn (o : Outcome I E) (is : List I) (y : Bytes) : Type 0 where
    pub rest : List I
    pub splits : is ≡ o.items ++ rest
    pub left : o.buffer ++ y ≡ encode_all encode rest
    pub fine : All IsFine rest
    pub calm : o.error ≡ none

  pub drain_stream :
      (is : List I) (n : ℕ) (b y : Bytes)
      → length b < n
      → All IsFine is
      → b ++ y ≡ encode_all encode is
      → StopsIn (drain next n b) is y
  unfolding drain
  drain_stream is zero b y h g e = absurd (omega arith)
  drain_stream [] (suc n) [] y h g e =
      rw codec.nothing (record { rest = []; splits = refl; left = e; fine = tt; calm = refl })
  drain_stream [] (suc n) (c ∷ b) y h g e = absurd (cc)
  drain_stream (i ∷ is) (suc n) b y h g e = elim (Bool-cases (ltb (length b) (length (encode i)))) [
    | inl short ↦
        rw (codec.part i b y (encode_all encode is) g.0 e (ltb→lt _ _ short))
          (record { rest = i ∷ is; splits = refl; left = e; fine = g; calm = refl })
    | inr long ↦
        let (ms, p, q) = append_split b y (encode i) (encode_all encode is) e (ground arith) in
        let w : next b ≡ emit i ms = rw p (codec.whole i ms g.0) in
        let s = law.emit_shrinks b i ms w in
        let r = drain_stream is n ms y (omega arith) g.1 q in
        rw w (record {
          rest = r.rest;
          splits = ap (◌∷◌ i) r.splits;
          left = r.left;
          fine = r.fine;
          calm = r.calm;
        })
  ]

  -- a buffer on which the loop stops holds no whole code
  pub none_left : (is : List I) → All IsFine is → next (encode_all encode is) ≡ wait → is ≡ []
  none_left [] g e = refl
  none_left (i ∷ is) g e = let w = codec.whole i (encode_all encode is) g.0 in cc

  feed_chunks_from :
      (chunks : List Bytes) (buf : Bytes) (is : List I)
      → next buf ≡ wait
      → All IsFine is
      → buf ++ join chunks ≡ encode_all encode is
      → feed_chunks next buf chunks ≡ record { items = is; buffer = []; error = none }
  unfolding feed_chunks feed_with
  feed_chunks_from [] buf is w g e =
      let e' : buf ≡ encode_all encode is = sym (append-nil buf) ∙ e in
      let z = none_left is g (rw (← e') w) in cc (z, e')
  feed_chunks_from (c ∷ cs) buf is w g e =
      let s =
        drain_stream is (suc (length (buf ++ c))) (buf ++ c) (join cs) (omega arith) g
          (append_assoc_lem buf c (join cs) ∙ e) in
      let stop = drain_stops next law (suc (length (buf ++ c))) (buf ++ c) (omega arith) s.calm in
      rw (s.calm, feed_chunks)
        (rw (feed_chunks_from cs _ s.rest stop s.fine s.left) (rw s.splits refl))

  -- Whatever the chunks, the reader yields the items that were encoded, and is left with nothing.
  pub feed_chunks-encode_all :
      (is : List I) (chunks : List Bytes)
      → All IsFine is
      → join chunks ≡ encode_all encode is
      → feed_chunks next [] chunks ≡ record { items = is; buffer = []; error = none }
  feed_chunks-encode_all is chunks g e = feed_chunks_from chunks [] is codec.nothing g e
