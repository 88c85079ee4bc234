-- ===== src/Protocol.antt =====
-- daemon/fedoralink/protocol.py: the packet types, `make_packet`, `serialize`, and the
-- `PacketReader`, whose `feed` is one turn under the loop of `Framing`.
pub mod Laws
pub mod RoundTrip
use fedoralink.Prelude.{
  ℕ, suc, ◌+◌, ◌*◌, String, Bool, true, false, ◌&&◌, ◌||◌, Option, none, some, List, [], ◌∷◌, ◌++◌,
  length, take, drop, every, ltb, ◌==◌, if◌then◌else◌,
}
use fedoralink.Json.{Json, obj, str, int, Fields, end, field, contains, as_fields}
use fedoralink.Framing.{Bytes, Next, wait, fail, skip, emit, Outcome, feed_with}

abbrev pub max_line_bytes : ℕ
max_line_bytes = 512 * 1024

-- The two halves of the `json` module that the protocol uses: `dumps` with the compact
-- separators, encoded as UTF-8, and `loads` of decoded text, `none` for text that is no UTF-8 or
-- no JSON.
pub record JsonText : Type 0 where
  pub dumps : Json → Bytes
  pub loads : Bytes → Option Json

pub data ProtocolError : Type 0 where
  too_long malformed missing_type : ProtocolError

-- `make_packet`, at the clock's `millis`; an empty or missing body is {}
unfoldable pub make_packet : ℕ → String → Option Fields → Json
make_packet millis packet_type body = obj (
    field "id" (int millis) (
      field "type" (str packet_type)
        (field "body" (obj (elim body [ none ↦ end | some fs ↦ fs ])) end)))

unfoldable pub serialize : JsonText → Json → Bytes
serialize text packet = text.dumps packet ++ b'\n' ∷ []

-- `bytearray.find`
unfoldable pub find_byte : ℕ → Bytes → Option ℕ
find_byte b [] = none
find_byte b (c ∷ cs) =
    let later = find_byte b cs in
    if c == b then some 0 else elim later [ none ↦ none | some i ↦ some (suc i) ]

-- the bytes that `bytes.strip` takes off
abbrev is_space : ℕ → Bool
is_space c = c == 32 || (c == 9 || (c == 10 || (c == 11 || (c == 12 || c == 13))))

-- `not line.strip()`
unfoldable pub is_blank : Bytes → Bool
is_blank line = every is_space line

-- `packet.setdefault("body", {})`
pub add_body : Fields → Fields
add_body end = field "body" (obj end) end
add_body (field k v rest) = field k v (add_body rest)

unfoldable pub with_body : Fields → Fields
unfolding add_body
with_body packet = if contains "body" packet then packet else add_body packet

-- `not isinstance(packet, dict) or "type" not in packet`
pub check_fields : Option Fields → Bytes → Next Fields ProtocolError
check_fields none rest = fail rest missing_type
check_fields (some packet) rest =
    if contains "type" packet then emit (with_body packet) rest else fail rest missing_type

-- what one complete line gives: a packet or an error, and the bytes behind it
unfoldable pub check_packet : Option Json → Bytes → Next Fields ProtocolError
unfolding check_fields
check_packet none rest = fail rest malformed
check_packet (some v) rest = check_fields (as_fields v) rest

unfoldable pub read_line : JsonText → Bytes → Bytes → Next Fields ProtocolError
unfolding check_packet is_blank
read_line text line rest = if is_blank line then skip rest else check_packet (text.loads line) rest

-- one turn of `PacketReader.feed`
abbrev pub split_line : JsonText → Bytes → Option ℕ → Next Fields ProtocolError
split_line text buf none = if ltb max_line_bytes (length buf) then fail [] too_long else wait
split_line text buf (some newline) = read_line text (take newline buf) (drop (newline + 1) buf)

unfoldable pub next_packet : JsonText → Bytes → Next Fields ProtocolError
next_packet text buf = split_line text buf (find_byte b'\n' buf)

-- `PacketReader.feed`: the packets that it yields, the buffer left, and the error raised
unfoldable pub feed : JsonText → Bytes → Bytes → Outcome Fields ProtocolError
unfolding feed_with next_packet
feed text buf chunk = feed_with (next_packet text) buf chunk
