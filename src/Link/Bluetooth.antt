-- ===== src/Link/Bluetooth.antt =====
-- daemon/fedoralink/transport.py: the `Connection` over Bluetooth, which reads lines as they come.
-- A plugin that raises is logged: its exceptions are left out.
use fedoralink.Prelude.{
  ◌≡◌, refl, ap, ◌∙◌, sym, Bool, true, false, Option, none, some, List, [], ◌∷◌, ◌++◌,
  append_assoc_lem, append-nil, is_empty, arith, Bool-cases, inl, inr, if◌then◌else◌,
}
use fedoralink.Json.{obj, Fields}
use fedoralink.Framing.{Bytes, Outcome, feed_with}
use fedoralink.Framing.Codec.{encode_all, join, All, feed_chunks, carry_on}
use fedoralink.Protocol.{JsonText, ProtocolError, serialize, feed, next_packet}
use fedoralink.Protocol.RoundTrip.{IsPacket, feed_chunks-serialize}
use fedoralink.Link.{
  Connection, Sent, close, flush, send_plain, Readable, hung_up, would_block, read_failed, chunk,
}
use fedoralink.Link.Outbox.{written-send_plain}
use fedoralink.Link.Calls.{Calls, packets_of}

-- the packets that reach `_on_packet`, and the connection afterwards
abbrev pub Received : Type 0
Received = List Fields × Connection

abbrev pub taken : Connection → Outcome Fields ProtocolError → Received
taken c o = (o.items, record c { packets = o.buffer })

-- `_on_readable`; a ProtocolError is logged, and the link stays up
unfoldable pub on_readable_plain : JsonText → Connection → Readable → Received
unfolding close feed
on_readable_plain text c hung_up = ([], close c)
on_readable_plain text c would_block = ([], c)
on_readable_plain text c read_failed = ([], close c)
on_readable_plain text c (chunk bytes) =
    if is_empty bytes then ([], close c) else taken c (feed text c.packets bytes)

-- `_on_writable`
unfoldable pub on_writable_plain : List Sent → Connection → Bool × Connection
unfolding flush
on_writable_plain answers c =
    if c.closed then (false, c) else (let d = flush answers c in (d.watching, d))

-- several calls of `_on_readable`, and of `send`
unfoldable pub receive_plain : JsonText → List Bytes → Connection → Received
receive_plain text [] c = ([], c)
receive_plain text (bytes ∷ more) c =
    let (ps, d) = on_readable_plain text c (chunk bytes) in
    let (qs, last) = receive_plain text more d in (ps ++ qs, last)

unfoldable pub send_all_plain : JsonText → Calls → Connection → Connection
send_all_plain text [] c = c
send_all_plain text ((packet, answers) ∷ calls) c =
    send_all_plain text calls (send_plain text answers (obj packet) c)

module _ (text : JsonText) where
  plain_closed :
      (answers : List Sent) (packet : Fields) (c : Connection)
      → c.closed ≡ true
      → send_plain text answers (obj packet) c ≡ c
  unfolding send_plain
  plain_closed answers packet c h = rw h refl

  all_closed : (calls : Calls) (c : Connection) → c.closed ≡ true → send_all_plain text calls c ≡ c
  unfolding send_all_plain
  all_closed [] c h = refl
  all_closed ((packet, answers) ∷ calls) c h =
      ap (send_all_plain text calls) (plain_closed answers packet c h) ∙ all_closed calls c h

  -- the stream that the calls put on the wire, or will
  written-send_all_plain :
      (calls : Calls) (c : Connection)
      → (send_all_plain text calls c).closed ≡ false
      → (send_all_plain text calls c).written ++ (send_all_plain text calls c).outbox
        ≡ (c.written ++ c.outbox) ++ encode_all (λ p. serialize text (obj p)) (packets_of calls)
  unfolding send_all_plain
  written-send_all_plain [] c h = sym (append-nil (c.written ++ c.outbox))
  written-send_all_plain ((packet, answers) ∷ calls) c h = elim (Bool-cases c.closed) [
    | inl shut ↦
        let e = ap (λ (x : Connection). x.closed) (all_closed ((packet, answers) ∷ calls) c shut) in
        cc
    | inr open_now ↦
        written-send_all_plain calls (send_plain text answers (obj packet) c) h
        ∙ ap (λ x. x ++ encode_all (λ p. serialize text (obj p)) (packets_of calls))
            (written-send_plain text answers (obj packet) c open_now)
        ∙ append_assoc_lem (c.written ++ c.outbox) (serialize text (obj packet)) _
  ]

  one_chunk :
      (bytes : Bytes) (c : Connection)
      → is_empty bytes ≡ false
      → on_readable_plain text c (chunk bytes) ≡ taken c (feed text c.packets bytes)
  unfolding on_readable_plain
  one_chunk bytes c e = rw e refl

  -- As long as the reader does not raise, the calls deliver what it yields.
  receive-feed_chunks :
      (chunks : List Bytes) (c : Connection)
      → All (λ x. is_empty x ≡ false) chunks
      → (feed_chunks (next_packet text) c.packets chunks).error ≡ none
      → receive_plain text chunks c ≡ taken c (feed_chunks (next_packet text) c.packets chunks)
  unfolding receive_plain feed_chunks feed
  receive-feed_chunks [] c ne e = refl
  receive-feed_chunks (bytes ∷ more) c (n, ne) e =
      ap
        (λ (x : Received).
          (x.0 ++ (receive_plain text more x.1).0, (receive_plain text more x.1).1))
        (one_chunk bytes c n)
      ∙ go (λ h. receive-feed_chunks more d ne h) o.error refl e
    where
      o : Outcome Fields ProtocolError
      o = feed_with (next_packet text) c.packets bytes

      d : Connection
      d = record c { packets = o.buffer }

      then_ : Outcome Fields ProtocolError
      then_ = feed_chunks (next_packet text) o.buffer more

      go :
          (then_.error ≡ none → receive_plain text more d ≡ taken d then_)
          → (m : Option ProtocolError) → o.error ≡ m
          → (carry_on o (λ b. feed_chunks (next_packet text) b more) m).error ≡ none
          → (o.items ++ (receive_plain text more d).0, (receive_plain text more d).1)
            ≡ taken c (carry_on o (λ b. feed_chunks (next_packet text) b more) m)
      go rest none q h = ap (λ (x : Received). (o.items ++ x.0, x.1)) (rest h)
      go rest (some x) q h = let z : none ≡ some x = sym h ∙ q in ground arith

-- The packets that one side sends over Bluetooth are the packets that the other side is handed, in
-- order, wherever the stream is cut into non-empty chunks, and they leave its connection as it was,
-- with nothing left over: for packets that fit a line and that the json module reads back, a sender
-- and a receiver that begin with nothing buffered, and a sender whose socket has not failed and has
-- taken all.
pub receive_plain-send_all_plain :
    (text : JsonText) (calls : Calls) (chunks : List Bytes) (s r : Connection)
    → s.written ++ s.outbox ≡ []
    → (send_all_plain text calls s).closed ≡ false
    → (send_all_plain text calls s).outbox ≡ []
    → r.packets ≡ []
    → All (λ x. is_empty x ≡ false) chunks
    → All (IsPacket text) (packets_of calls)
    → join chunks ≡ (send_all_plain text calls s).written
    → receive_plain text chunks r ≡ (packets_of calls, r)
receive_plain-send_all_plain text calls chunks s r fresh open_now all_out no_part ne g same =
    let w = written-send_all_plain text calls s open_now in
    let stream : join chunks ≡ encode_all (λ p. serialize text (obj p)) (packets_of calls) =
      same
      ∙ sym (append-nil (send_all_plain text calls s).written)
      ∙ ap (λ x. (send_all_plain text calls s).written ++ x) (sym all_out)
      ∙ w
      ∙ ap (λ x. x ++ encode_all (λ p. serialize text (obj p)) (packets_of calls)) fresh in
    let f : feed_chunks (next_packet text) r.packets chunks
        ≡ record { items = packets_of calls; buffer = []; error = none } =
      ap (λ b. feed_chunks (next_packet text) b chunks) no_part
      ∙ feed_chunks-serialize text (packets_of calls) chunks g stream in
    receive-feed_chunks text chunks r ne (ap (λ (o : Outcome Fields ProtocolError). o.error) f)
    ∙ ap (taken r) f
    ∙ ap (λ b. (packets_of calls, record r { packets = b })) (sym no_part)
