-- ===== src/Examples/Wire.antt =====
-- Packets on the two links.
use fedoralink.Prelude.{
  ◌≡◌, ◌≤◌, refl, none, some, List, [], ◌∷◌, ◌++◌, length, take, drop, length-append, arith,
}
use fedoralink.Framing.{Bytes, drain}
use fedoralink.Framing.Codec.{feed_chunks}
use fedoralink.BigEndian.{digits_be, to_bytes}
use fedoralink.Protocol.{
  serialize, feed, next_packet, find_byte, is_blank, malformed, max_line_bytes,
}
use fedoralink.Protocol.RoundTrip.{feed_chunks-serialize, length-feed, feed_malformed}
use fedoralink.Session.{Aead, new_crypto, next_record, seal, pack_u32, nonce_of}
use fedoralink.Session.Records.{feed_chunks-frame_record}
use fedoralink.Link.{Connection, new_connection, took, blocked, flush, fine, send}
use fedoralink.Link.Opening.{IsAead}
use fedoralink.Link.Calls.{Calls, send_all, receive}
use fedoralink.Link.Delivery.{receive-send_all}
use fedoralink.Examples.{ping, one_object, no_json, ping-IsPacket}

abbrev tag : Bytes
tag = 0 ∷ 0 ∷ 0 ∷ 0 ∷ 0 ∷ 0 ∷ 0 ∷ 0 ∷ 0 ∷ 0 ∷ 0 ∷ 0 ∷ 0 ∷ 0 ∷ 0 ∷ 0 ∷ []

abbrev tagged : Aead
tagged = record {
  encrypt = λ key nonce plain. tag ++ plain;
  decrypt = λ key nonce sealed. some (drop 16 sealed);
}

tagged-IsAead : IsAead tagged
tagged-IsAead = record {
  opens = λ key nonce plain. refl;
  tagged = λ key nonce plain. omega (arith, length-append tag plain);
}

abbrev sender : Connection
sender = new_connection (new_crypto (1 ∷ []) (2 ∷ []))

abbrev receiver : Connection
receiver = new_connection (new_crypto (2 ∷ []) (1 ∷ []))

-- one packet, for which the socket takes five bytes and then blocks
abbrev one_call : Calls
one_call = (ping, took 5 ∷ blocked ∷ []) ∷ []

abbrev stream : Bytes
stream = 0 ∷ 0 ∷ 0 ∷ 19 ∷ (tag ++ b'{' ∷ b'}' ∷ 10 ∷ [])

abbrev two_chunks : List Bytes
two_chunks = take 7 stream ∷ drop 7 stream ∷ []

receive-send_all_example :
    ((receive (one_object ping) tagged two_chunks receiver).delivered ≡ ping ∷ [])
    × ((receive (one_object ping) tagged two_chunks receiver).status ≡ fine)
unfolding new_connection new_crypto send_all send seal flush serialize nonce_of to_bytes pack_u32
    digits_be
receive-send_all_example =
    receive-send_all (one_object ping) tagged one_call two_chunks sender receiver tagged-IsAead refl
      refl (record { packet_fine = ping-IsPacket; fits = omega arith }, tt) (omega arith) refl refl
      refl refl (refl, (refl, tt)) refl

feed_chunks-serialize_example :
    feed_chunks (next_packet (one_object ping)) [] ((b'{' ∷ []) ∷ (b'}' ∷ 10 ∷ []) ∷ [])
    ≡ record { items = ping ∷ []; buffer = []; error = none }
unfolding serialize
feed_chunks-serialize_example =
    feed_chunks-serialize (one_object ping) (ping ∷ []) ((b'{' ∷ []) ∷ (b'}' ∷ 10 ∷ []) ∷ [])
      (ping-IsPacket, tt) refl

feed_chunks-frame_record_example :
    feed_chunks next_record [] ((0 ∷ 0 ∷ []) ∷ (0 ∷ 1 ∷ 9 ∷ []) ∷ [])
    ≡ record { items = (9 ∷ []) ∷ []; buffer = []; error = none }
unfolding digits_be
feed_chunks-frame_record_example =
    feed_chunks-frame_record ((9 ∷ []) ∷ []) ((0 ∷ 0 ∷ []) ∷ (0 ∷ 1 ∷ 9 ∷ []) ∷ [])
      (record { positive = omega arith; small = omega arith }, tt) refl

length-feed_example :
    (length (feed (one_object ping) [] (b'{' ∷ [])).buffer ≤ max_line_bytes)
    × (find_byte b'\n' (feed (one_object ping) [] (b'{' ∷ [])).buffer ≡ none)
unfolding feed drain find_byte
length-feed_example = length-feed (one_object ping) [] (b'{' ∷ []) refl

feed_malformed_example :
    feed no_json [] (b'x' ∷ b'\n' ∷ b'{' ∷ b'}' ∷ b'\n' ∷ [])
    ≡ record { items = []; buffer = b'{' ∷ b'}' ∷ b'\n' ∷ []; error = some malformed }
feed_malformed_example =
    feed_malformed no_json (b'x' ∷ []) (b'{' ∷ b'}' ∷ b'\n' ∷ []) (unfold find_byte in refl)
      (unfold is_blank in refl) refl
