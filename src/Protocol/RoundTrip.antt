-- ===== src/Protocol/RoundTrip.antt =====
-- daemon/fedoralink/protocol.py: `PacketReader.feed` on whole, cut and malformed lines.
use fedoralink.Prelude.{
  ℕ, suc, ◌<◌, ◌≤◌, ◌≡◌, refl, ap, ◌∙◌, sym, true, false, none, some, List, [], ◌∷◌, ◌++◌, length,
  length-append, take_append, drop_append_cons, Option-cases, append_assoc_lem, inl, inr, arith,
  append-nil, append_split, le→ltb,
}
use fedoralink.Json.{obj, Fields, contains, as_fields}
use fedoralink.Framing.{Bytes, wait, emit, feed_with, prepend, drain}
use fedoralink.Framing.Chunks.{feed_with-append, drain_stops, drain_wait}
use fedoralink.Framing.Codec.{IsCodec, feed_chunks, feed_chunks-encode_all, encode_all, join, All}
use fedoralink.Protocol.{
  JsonText, malformed, max_line_bytes, find_byte, is_blank, check_packet, read_line, next_packet,
  feed, serialize, with_body,
}
use fedoralink.Protocol.Laws.{next_packet-IsFraming}

-- A packet that `serialize` writes on one line of bounded length and `loads` reads back.
pub record IsPacket (text : JsonText) (packet : Fields) : Type 0 where
  pub one_line : find_byte b'\n' (text.dumps (obj packet)) ≡ none
  pub some_text : is_blank (text.dumps (obj packet)) ≡ false
  pub read_back : text.loads (text.dumps (obj packet)) ≡ some (obj packet)
  pub has_type : contains "type" packet ≡ true
  pub has_body : contains "body" packet ≡ true
  pub short : length (text.dumps (obj packet)) ≤ max_line_bytes

find_byte_here :
    (b : ℕ) (xs ys : Bytes) → find_byte b xs ≡ none → find_byte b (xs ++ b ∷ ys) ≡ some (length xs)
unfolding find_byte
find_byte_here b [] ys e = ground arith
find_byte_here b (x ∷ xs) ys e = elim (Option-cases (find_byte b xs)) [
  | inl p ↦ ground (arith, find_byte_here b xs ys p)
  | inr (j, p) ↦ ground arith
]

find_byte_part : (b : ℕ) (xs ys : Bytes) → find_byte b (xs ++ ys) ≡ none → find_byte b xs ≡ none
unfolding find_byte
find_byte_part b [] ys e = refl
find_byte_part b (x ∷ xs) ys e = elim (Option-cases (find_byte b (xs ++ ys))) [
  | inl p ↦ ground (arith, find_byte_part b xs ys p)
  | inr (j, p) ↦ ground arith
]

module _ (text : JsonText) where
  -- a turn on a buffer that begins with a complete line
  next_packet_line :
      (line rest : Bytes)
      → find_byte b'\n' line ≡ none
      → next_packet text (line ++ b'\n' ∷ rest) ≡ read_line text line rest
  unfolding next_packet
  next_packet_line line rest e =
      rw (find_byte_here b'\n' line rest e) (rw (take_append, drop_append_cons) refl)

  read_line_packet :
      (packet : Fields) (more : Bytes)
      → IsPacket text packet
      → read_line text (text.dumps (obj packet)) more ≡ emit packet more
  unfolding read_line check_packet with_body as_fields
  read_line_packet packet more fine =
      rw (fine.some_text, fine.read_back, fine.has_type, fine.has_body) refl

  next_packet_whole :
      (packet : Fields) (more : Bytes)
      → IsPacket text packet
      → next_packet text (serialize text (obj packet) ++ more) ≡ emit packet more
  unfolding serialize
  next_packet_whole packet more fine =
      rw (append_assoc_lem (text.dumps (obj packet)) (b'\n' ∷ []) more) (
        next_packet_line (text.dumps (obj packet)) more fine.one_line
        ∙ read_line_packet packet more fine)

  next_packet_part :
      (packet : Fields) (b y more : Bytes)
      → IsPacket text packet
      → b ++ y ≡ serialize text (obj packet) ++ more
      → length b < length (serialize text (obj packet))
      → next_packet text b ≡ wait
  unfolding serialize next_packet
  next_packet_part packet b y more fine e h =
      let line = text.dumps (obj packet) in
      let (ms, p, _) =
        append_split line (b'\n' ∷ more) b y (sym (e ∙ append_assoc_lem line (b'\n' ∷ []) more))
          (omega (arith, length-append line (b'\n' ∷ []))) in
      let n = find_byte_part b'\n' b ms (rw (← p) fine.one_line) in
      let l = ap length p in
      rw n
        (rw (le→ltb max_line_bytes (length b) (omega (arith, length-append b ms, fine.short))) refl)

  pub next_packet-IsCodec :
      IsCodec (next_packet text) (λ packet. serialize text (obj packet)) (IsPacket text)
  next_packet-IsCodec = record {
    nothing = unfold next_packet find_byte in refl;
    whole = next_packet_whole;
    part = next_packet_part;
  }

-- One serialised packet in an empty reader.
pub feed-serialize :
    (text : JsonText) (packet : Fields)
    → IsPacket text packet
    → feed text [] (serialize text (obj packet))
      ≡ record { items = packet ∷ []; buffer = []; error = none }
unfolding feed feed_with drain
feed-serialize text packet fine =
    let codec = next_packet-IsCodec text in
    let w = rw append-nil at (codec.whole packet [] fine) in
    rw w (
      rw (drain_wait (next_packet text) (length (serialize text (obj packet))) [] codec.nothing)
        refl)

-- Packets that fit a line and that the json module reads back, serialised one behind the other and
-- cut into any chunks, come out of the reader as they were, in order, with no error and nothing
-- left in the buffer.
pub feed_chunks-serialize :
    (text : JsonText) (packets : List Fields) (chunks : List Bytes)
    → All (IsPacket text) packets
    → join chunks ≡ encode_all (λ packet. serialize text (obj packet)) packets
    → feed_chunks (next_packet text) [] chunks
      ≡ record { items = packets; buffer = []; error = none }
feed_chunks-serialize text packets chunks =
    feed_chunks-encode_all (next_packet text) (λ packet. serialize text (obj packet))
      (IsPacket text) (next_packet-IsFraming text) (next_packet-IsCodec text) packets chunks

-- Unless the first chunk raises, feeding two chunks gives the packets, the buffer and the error
-- that feeding them as one chunk gives.
pub feed-append :
    (text : JsonText) (buf a b : Bytes)
    → (feed text buf a).error ≡ none
    → feed text buf (a ++ b)
      ≡ prepend (feed text buf a).items (feed text (feed text buf a).buffer b)
unfolding feed
feed-append text = feed_with-append (next_packet text) (next_packet-IsFraming text)

wait_bounded :
    (text : JsonText) (b : Bytes)
    → next_packet text b ≡ wait
    → (length b ≤ max_line_bytes) × (find_byte b'\n' b ≡ none)
unfolding next_packet read_line check_packet
wait_bounded text b e = elim (Option-cases (find_byte b'\n' b)) [
  | inl p ↦ ground arith
  | inr (i, p) ↦ ground arith
]

-- A call of `feed` that does not raise leaves at most `max_line_bytes` bytes, and no newline.
pub length-feed :
    (text : JsonText) (buf chunk : Bytes)
    → (feed text buf chunk).error ≡ none
    → (length (feed text buf chunk).buffer ≤ max_line_bytes)
      × (find_byte b'\n' (feed text buf chunk).buffer ≡ none)
unfolding feed
length-feed text buf chunk ok = wait_bounded text _ (
    unfold feed_with in
    drain_stops (next_packet text) (next_packet-IsFraming text) (suc (length (buf ++ chunk)))
      (buf ++ chunk) (omega arith) ok)

-- A line that is not blank and is no JSON makes `feed` raise at once: whatever stands behind it,
-- complete packets included, is left in the buffer and is not read in this call.
pub feed_malformed :
    (text : JsonText) (line rest : Bytes)
    → find_byte b'\n' line ≡ none
    → is_blank line ≡ false
    → text.loads line ≡ none
    → feed text [] (line ++ b'\n' ∷ rest)
      ≡ record { items = []; buffer = rest; error = some malformed }
unfolding feed feed_with drain read_line check_packet
feed_malformed text line rest one_line some_text bad =
    rw (next_packet_line text line rest one_line, some_text, bad) refl
