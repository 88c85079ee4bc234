-- ===== src/Upgrade.antt =====
-- daemon/fedoralink/tcp.py (`TcpTransport`, `_Handshake`): the offer of a LAN link, and the
-- handshake of the peer that takes it. Sockets and timers are events with the kernel's answers.
pub mod Offers
pub mod Trusted
use fedoralink.Prelude.{
  ℕ, String, Bool, true, false, Option, none, some, List, [], ◌∷◌, ◌++◌, length, take, ltb, ◌==◌,
  if◌then◌else◌, is_empty, is_some,
}
use fedoralink.Json.{Json, obj, str, Fields, end, field, get, as_str, as_fields}
use fedoralink.Framing.{Bytes}
use fedoralink.Protocol.{JsonText, serialize, find_byte}
use fedoralink.Auth.{Primitives, new_token, respond}
use fedoralink.Session.{
  Verdict, proceed, rejected, crashed, verify_hello, SessionError, Result, ok, err, raised,
  derive_keys, RecordCrypto, new_crypto,
}
use fedoralink.Link.{Sent, took, blocked, failed}

abbrev pub max_handshake_bytes : ℕ
max_handshake_bytes = 8192

-- `reading` says that `read_source` is set.
pub record Handshake : Type 0 where
  pub nonce : String
  pub device_id : String
  pub buffer : Bytes
  pub reading : Bool

-- `server` is the port of the listening socket, and `link` the crypto of the connection.
pub record Tcp : Type 0 where
  pub link : Option RecordCrypto
  pub pending : Option Handshake
  pub server : Option ℕ
  pub nonce : Option String
  pub expect_device : Option String

abbrev pub idle_tcp : Tcp
idle_tcp = record { link = none; pending = none; server = none; nonce = none; expect_device = none }

-- `start`, where `bound` is the port that the socket was bound to, or none for an OSError
unfoldable pub start : Option ℕ → Tcp → Option ℕ × Tcp
start bound t = if is_some t.server then (t.server, t) else (bound, record t { server = bound })

-- `stop`; the callbacks of the closed connection are the daemon's
unfoldable pub stop : Tcp → Tcp
stop t = idle_tcp

-- `_abandon_handshake` and `_clear_handshake`
unfoldable pub abandon : Tcp → Tcp
abandon t = record t { pending = none }

-- `new_offer`
unfoldable pub new_offer : Primitives → Bytes → String → Tcp → String × Tcp
new_offer prim random device_id t = (
  new_token prim random,
  record t { nonce = some (new_token prim random); expect_device = some device_id },
)

abbrev pub admit : Option String → Option String → Tcp → Tcp
admit none _ t = t
admit (some nonce) none t = t
admit (some nonce) (some device_id) t = record t {
  pending = some (record { nonce = nonce; device_id = device_id; buffer = []; reading = true });
}

-- `_on_incoming`, for a caller that was accepted; one that would block or fails changes nothing.
-- One offer, one attempt.
unfoldable pub on_incoming : Tcp → Tcp
on_incoming t =
    if is_some t.server
    then (if is_some t.link
        then t
        else if is_some t.pending
        then t
        else admit t.nonce t.expect_device (record t { nonce = none; expect_device = none }))
    else t

-- `_on_handshake_timeout`
unfoldable pub on_handshake_timeout : Tcp → Tcp
unfolding abandon
on_handshake_timeout t = abandon t

-- What `recv` finds: a hang-up or an error, nothing yet, or bytes; no bytes are a hang-up too.
pub data Received : Type 0 where
  hang_up nothing_yet : Received
  bytes : Bytes → Received

module _ (prim : Primitives) (text : JsonText) (secret_for : String → Option String) where
  abbrev pub with_keys : Result (Bytes × Bytes) → Tcp → Tcp
  with_keys (ok (desktop_key, phone_key)) t = record t {
    pending = none;
    link = some (new_crypto desktop_key phone_key);
  }
  with_keys (err e) t = abandon t
  with_keys raised t = t

  -- whether one `send` took the whole reply
  abbrev pub is_whole : Bytes → Sent → Bool
  is_whole reply (took n) = n == length reply
  is_whole reply blocked = false
  is_whole reply failed = false

  abbrev pub answer : Sent → String → String → String → Option String → Tcp → Tcp
  answer s secret nonce phone_nonce none t = abandon t
  answer s secret nonce phone_nonce (some our_mac) t =
      if is_whole (serialize text (obj (field "mac" (str our_mac) end))) s
      then with_keys (derive_keys prim secret nonce phone_nonce) t
      else abandon t

  -- an exception of `verify_hello` other than HandshakeRejected leaves the handshake as it is
  abbrev pub judged : Sent → Option String → String → Verdict → Tcp → Tcp
  judged s secret nonce (rejected why) t = abandon t
  judged s secret nonce crashed t = t
  judged s none nonce (proceed phone_nonce) t = t
  judged s (some secret) nonce (proceed phone_nonce) t =
      answer s secret nonce phone_nonce (respond prim secret phone_nonce) t

  abbrev pub lookup_secret : Option String → Option String
  lookup_secret none = none
  lookup_secret (some device_id) = secret_for device_id

  abbrev pub with_hello : Sent → Handshake → Option Fields → Tcp → Tcp
  with_hello s h none t = abandon t
  with_hello s h (some hello) t =
      judged s (lookup_secret (as_str (get "deviceId" hello))) h.nonce
        (verify_hello prim hello (some h.device_id) (some h.nonce)
          (lookup_secret (as_str (get "deviceId" hello))))
        t

  abbrev pub hello_in : Option Json → Option Fields
  hello_in none = none
  hello_in (some v) = as_fields v

  -- `_complete_handshake`, with the answer to the one `send` of the reply
  unfoldable pub complete_handshake : Sent → Handshake → Bytes → Tcp → Tcp
  unfolding abandon
  complete_handshake s h line t = with_hello s h (hello_in (text.loads line)) t

  abbrev pub at_newline : Sent → Handshake → Option ℕ → Tcp → Tcp
  at_newline s h none t = record t { pending = some h }
  at_newline s h (some i) t =
      complete_handshake s h (take i h.buffer)
        (record t { pending = some (record h { reading = false }) })

  abbrev pub add_chunk : Sent → Bytes → Handshake → Tcp → Tcp
  add_chunk s chunk h t =
      if is_empty chunk
      then abandon t
      else if ltb max_handshake_bytes (length (h.buffer ++ chunk))
      then abandon t
      else at_newline s (record h { buffer = h.buffer ++ chunk })
          (find_byte b'\n' (h.buffer ++ chunk)) t

  abbrev pub read_handshake : Sent → Received → Option Handshake → Tcp → Tcp
  read_handshake s r none t = t
  read_handshake s hang_up (some h) t = if h.reading then abandon t else t
  read_handshake s nothing_yet (some h) t = t
  read_handshake s (bytes chunk) (some h) t = if h.reading then add_chunk s chunk h t else t

  -- `_on_handshake_readable`, which its source calls
  unfoldable pub on_handshake_readable : Sent → Received → Tcp → Tcp
  unfolding complete_handshake abandon
  on_handshake_readable s r t = read_handshake s r t.pending t

-- `_handle_close`, for the connection that is up
unfoldable pub handle_close : Tcp → Tcp
handle_close t = record t { link = none }
