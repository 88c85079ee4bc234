-- ===== src/Session.antt =====
-- daemon/fedoralink/session.py: `verify_hello`, `hkdf`, `derive_keys`, `RecordCrypto`, and the
-- `RecordReader`, whose `feed` is one turn under the loop of `Framing`.
pub mod Keys
pub mod Records
use fedoralink.Prelude.{
  ℕ, zero, suc, ◌+◌, ◌*◌, String, Bool, true, false, ◌&&◌, ◌||◌, Option, none, some, List, [], ◌∷◌,
  ◌++◌, length, take, drop, ltb, ◌==◌, str_eq, if◌then◌else◌, is_empty,
}
use fedoralink.Json.{Json, Fields, get, as_str, as_text}
use fedoralink.Framing.{Bytes, Next, wait, fail, skip, emit, Outcome, feed_with}
use fedoralink.BigEndian.{to_bytes, from_bytes}
use fedoralink.Auth.{Primitives, verify}

abbrev pub key_bytes : ℕ
key_bytes = 32

abbrev pub nonce_bytes : ℕ
nonce_bytes = 12

abbrev pub length_prefix : ℕ
length_prefix = 4

abbrev pub max_record_bytes : ℕ
max_record_bytes = 8 * 1024 * 1024

pub data Refusal : Type 0 where
  no_offer wrong_device no_nonce no_secret bad_mac : Refusal

-- `verify_hello` returns the phone's nonce, raises `HandshakeRejected`, or lets the TypeError of
-- `auth.verify` through.
pub data Verdict : Type 0 where
  proceed : String → Verdict
  rejected : Refusal → Verdict
  crashed : Verdict

-- `hello.get("deviceId") == expected_device`
abbrev pub is_device : String → Option String → Bool
is_device expected none = false
is_device expected (some id) = str_eq id expected

abbrev pub judge_mac : String → Option Bool → Verdict
judge_mac phone_nonce none = crashed
judge_mac phone_nonce (some true) = proceed phone_nonce
judge_mac phone_nonce (some false) = rejected bad_mac

module _ (prim : Primitives) where
  abbrev pub judge_secret : Fields → String → String → Option String → Verdict
  judge_secret hello desktop_nonce phone_nonce none = rejected no_secret
  judge_secret hello desktop_nonce phone_nonce (some secret) =
      judge_mac phone_nonce (verify prim secret desktop_nonce (get "mac" hello))

  abbrev pub judge_nonce : Fields → String → Option String → Option String → Verdict
  judge_nonce hello desktop_nonce secret none = rejected no_nonce
  judge_nonce hello desktop_nonce secret (some phone_nonce) =
      judge_secret hello desktop_nonce phone_nonce secret

  unfoldable pub verify_hello : Fields → Option String → Option String → Option String → Verdict
  verify_hello hello none offered secret = rejected no_offer
  verify_hello hello (some expected) none secret = rejected no_offer
  verify_hello hello (some expected) (some desktop_nonce) secret =
      if is_device expected (as_str (get "deviceId" hello))
      then judge_nonce hello desktop_nonce secret (as_text (get "nonce" hello))
      else rejected wrong_device

  -- the loop of `hkdf`, on fuel. `bytes([counter])` is a ValueError from 256 on.
  unfoldable pub hkdf_loop : ℕ → Bytes → Bytes → ℕ → Bytes → Bytes → ℕ → Option Bytes
  hkdf_loop zero prk info len out block counter = none
  hkdf_loop (suc fuel) prk info len out block counter =
      let next = prim.hmac_sha256 prk (block ++ (info ++ counter ∷ [])) in
      let rest = hkdf_loop fuel prk info len (out ++ next) next (counter + 1) in
      if ltb (length out) len then (if ltb counter 256 then rest else none) else some (take len out)

  -- with output blocks of one byte or more, `len` rounds are enough
  unfoldable pub hkdf : Bytes → Bytes → Bytes → ℕ → Option Bytes
  unfolding hkdf_loop
  hkdf secret salt info len = hkdf_loop (suc len) (prim.hmac_sha256 salt secret) info len [] [] 1

abbrev pub hkdf_info_desktop : Bytes
hkdf_info_desktop =
    102 ∷ 101 ∷ 100 ∷ 111 ∷ 114 ∷ 97 ∷ 108 ∷ 105 ∷ 110 ∷ 107 ∷ 32 ∷ 100 ∷ 101 ∷ 115 ∷ 107 ∷ 116
    ∷ 111 ∷ 112 ∷ 45 ∷ 62 ∷ 112 ∷ 104 ∷ 111 ∷ 110 ∷ 101 ∷ []

abbrev pub hkdf_info_phone : Bytes
hkdf_info_phone =
    102 ∷ 101 ∷ 100 ∷ 111 ∷ 114 ∷ 97 ∷ 108 ∷ 105 ∷ 110 ∷ 107 ∷ 32 ∷ 112 ∷ 104 ∷ 111 ∷ 110 ∷ 101 ∷ 45
    ∷ 62 ∷ 100 ∷ 101 ∷ 115 ∷ 107 ∷ 116 ∷ 111 ∷ 112 ∷ []

pub data SessionError : Type 0 where
  not_base64 empty_material failed_authentication claims_zero : SessionError
  claims : ℕ → SessionError

pub data Result (A : Type 0) : Type 0 where
  ok : A → Result A
  err : SessionError → Result A
  raised : Result A

-- the two calls of `hkdf`; one that raises a ValueError would let it through
abbrev pub both_keys : Option Bytes → Option Bytes → Result (Bytes × Bytes)
both_keys none _ = raised
both_keys (some a) none = raised
both_keys (some a) (some b) = ok (a, b)

module _ (prim : Primitives) where
  abbrev keys_from : Bytes → Bytes → Bytes → Result (Bytes × Bytes)
  keys_from secret desktop_nonce phone_nonce =
      if is_empty secret || (is_empty desktop_nonce || is_empty phone_nonce)
      then err empty_material
      else both_keys (hkdf prim secret (desktop_nonce ++ phone_nonce) hkdf_info_desktop key_bytes)
          (hkdf prim secret (desktop_nonce ++ phone_nonce) hkdf_info_phone key_bytes)

  abbrev with_material : Option Bytes → Option Bytes → Option Bytes → Result (Bytes × Bytes)
  with_material none _ _ = err not_base64
  with_material (some s) none _ = err not_base64
  with_material (some s) (some d) none = err not_base64
  with_material (some s) (some d) (some p) = keys_from s d p

  -- `derive_keys`: desktop-to-phone key, then phone-to-desktop key
  unfoldable pub derive_keys : String → String → String → Result (Bytes × Bytes)
  derive_keys secret desktop_nonce phone_nonce =
      with_material (prim.b64decode secret) (prim.b64decode desktop_nonce)
        (prim.b64decode phone_nonce)

-- AES-256-GCM of the cryptography package, for a key and a nonce; `decrypt` gives `none` for any
-- exception.
pub record Aead : Type 0 where
  pub encrypt : Bytes → Bytes → Bytes → Bytes
  pub decrypt : Bytes → Bytes → Bytes → Option Bytes

pub record RecordCrypto : Type 0 where
  pub send_key : Bytes
  pub recv_key : Bytes
  pub send_counter : ℕ
  pub recv_counter : ℕ

unfoldable pub new_crypto : Bytes → Bytes → RecordCrypto
new_crypto send_key recv_key = record {
  send_key = send_key;
  recv_key = recv_key;
  send_counter = 0;
  recv_counter = 0;
}

-- `_nonce`; `none` is the OverflowError of `to_bytes`
unfoldable pub nonce_of : ℕ → Option Bytes
nonce_of counter = to_bytes nonce_bytes counter

-- `struct.pack("!I", n)`; `none` is the struct.error
unfoldable pub pack_u32 : ℕ → Option Bytes
pack_u32 n = to_bytes length_prefix n

module _ (aead : Aead) where
  abbrev frame : Bytes → Option Bytes → Option Bytes
  frame sealed none = none
  frame sealed (some prefix) = some (prefix ++ sealed)

  abbrev seal_with : RecordCrypto → Bytes → Option Bytes → Option Bytes × RecordCrypto
  seal_with c plaintext none = (none, c)
  seal_with c plaintext (some nonce) =
      let sealed = aead.encrypt c.send_key nonce plaintext in
      (frame sealed (pack_u32 (length sealed)), record c { send_counter = c.send_counter + 1 })

  -- `RecordCrypto.seal`: the framed record, `none` where it raises
  unfoldable pub seal : RecordCrypto → Bytes → Option Bytes × RecordCrypto
  seal c plaintext = seal_with c plaintext (nonce_of c.send_counter)

  abbrev opened : RecordCrypto → Option Bytes → Result Bytes × RecordCrypto
  opened c none = (err failed_authentication, c)
  opened c (some plaintext) = (ok plaintext, record c { recv_counter = c.recv_counter + 1 })

  abbrev open_with : RecordCrypto → Bytes → Option Bytes → Result Bytes × RecordCrypto
  open_with c sealed none = (raised, c)
  open_with c sealed (some nonce) = opened c (aead.decrypt c.recv_key nonce sealed)

  -- `RecordCrypto.open`; the nonce is computed outside the `try`
  unfoldable pub open_record : RecordCrypto → Bytes → Result Bytes × RecordCrypto
  open_record c sealed = open_with c sealed (nonce_of c.recv_counter)

-- one turn of `RecordReader.feed`, on a buffer with a whole prefix
abbrev pub read_record : Bytes → ℕ → Next Bytes SessionError
read_record buf len =
    if ltb max_record_bytes len
    then fail [] (claims len)
    else if len == 0
    then fail buf claims_zero
    else if ltb (length buf) (length_prefix + len)
    then wait
    else emit (take len (drop length_prefix buf)) (drop (length_prefix + len) buf)

unfoldable pub next_record : Bytes → Next Bytes SessionError
next_record buf =
    if ltb (length buf) length_prefix
    then wait
    else read_record buf (from_bytes (take length_prefix buf))

-- `RecordReader.feed`
unfoldable pub feed_records : Bytes → Bytes → Outcome Bytes SessionError
unfolding feed_with next_record
feed_records buf chunk = feed_with next_record buf chunk
