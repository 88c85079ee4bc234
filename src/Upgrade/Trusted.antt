-- ===== src/Upgrade/Trusted.antt =====
-- daemon/fedoralink/tcp.py: the device that a LAN link is for.
use mathlib.Core.Path.{subst}
use fedoralink.Prelude.{
  ◌≡◌, inl, inr, refl, String, true, false, Option, none, some, arith, Bool-cases, ℕ, ltb, length,
  ◌++◌, is_empty, take, sym, ◌∙◌,
}
use fedoralink.Json.{obj, str, Fields, end, field, get, as_str}
use fedoralink.Framing.{Bytes}
use fedoralink.Protocol.{JsonText, serialize, find_byte}
use fedoralink.Auth.{Primitives, respond}
use fedoralink.Session.{
  Verdict, proceed, rejected, crashed, verify_hello, RecordCrypto, new_crypto, Result, ok, err,
  raised, derive_keys,
}
use fedoralink.Session.Keys.{IsAuthentic, verify_hello-IsAuthentic}
use fedoralink.Link.{Sent}
use fedoralink.Upgrade.{
  Tcp, Handshake, abandon, on_handshake_readable, Received, hang_up, nothing_yet, bytes,
  complete_handshake, with_hello, judged, answer, with_keys, is_whole, lookup_secret, hello_in,
  at_newline, read_handshake,
}

-- What a peer has shown for the link. The line up to the first newline, of the bytes that were
-- there and the ones that have come in, is a hello with the MAC of the nonce that was offered, under
-- the stored secret of the device it was offered to. The keys are those of that secret, of that
-- nonce and of the nonce in the hello.
pub record IsEarned (prim : Primitives) (text : JsonText) (secret_for : String → Option String)
    (h : Handshake) (received : Bytes) (crypto : RecordCrypto) : Type 0 where
  pub hello : Fields
  pub stop : ℕ
  pub secret : String
  pub phone_nonce : String
  pub desktop_key : Bytes
  pub phone_key : Bytes
  pub line_end : find_byte b'\n' received ≡ some stop
  pub sent : hello_in prim text secret_for (text.loads (take stop received)) ≡ some hello
  pub stored : secret_for h.device_id ≡ some secret
  pub authentic : IsAuthentic prim hello h.device_id h.nonce secret phone_nonce
  pub derived : derive_keys prim secret h.nonce phone_nonce ≡ ok (desktop_key, phone_key)
  pub keys : crypto ≡ new_crypto desktop_key phone_key

-- the bytes that a handshake has received
abbrev pub seen : Handshake → Received → Bytes
seen h (bytes chunk) = h.buffer ++ chunk
seen h hang_up = h.buffer
seen h nothing_yet = h.buffer

-- the same of a given hello
record Shows (prim : Primitives) (secret_for : String → Option String) (device nonce : String)
    (hello : Fields) (crypto : RecordCrypto) : Type 0 where
  secret : String
  phone_nonce : String
  desktop_key : Bytes
  phone_key : Bytes
  stored : secret_for device ≡ some secret
  authentic : IsAuthentic prim hello device nonce secret phone_nonce
  derived : derive_keys prim secret nonce phone_nonce ≡ ok (desktop_key, phone_key)
  keys : crypto ≡ new_crypto desktop_key phone_key

module _ (prim : Primitives) (text : JsonText) (secret_for : String → Option String)
    (crypto : RecordCrypto) where
  with_keys-link :
      (k : Result (Bytes × Bytes)) (t : Tcp)
      → t.link ≡ none
      → (with_keys prim text secret_for k t).link ≡ some crypto
      → (p : Bytes × Bytes) × (k ≡ ok p) × (crypto ≡ new_crypto p.0 p.1)
  unfolding abandon
  with_keys-link (ok (a, b)) t l e = ((a, b), refl, ground arith)
  with_keys-link (err w) t l e = ground arith
  with_keys-link raised t l e = ground arith

  answer-link :
      (s : Sent) (k n p : String) (m : Option String) (t : Tcp)
      → t.link ≡ none
      → (answer prim text secret_for s k n p m t).link ≡ some crypto
      → (ks : Bytes × Bytes) × (derive_keys prim k n p ≡ ok ks) × (crypto ≡ new_crypto ks.0 ks.1)
  unfolding abandon
  answer-link s k n p none t l e = ground arith
  answer-link s k n p (some m) t l e =
      elim (Bool-cases
        (is_whole prim text secret_for (serialize text (obj (field "mac" (str m) end))) s)) [
          | inl w ↦ with_keys-link (derive_keys prim k n p) t l (rw w at e)
          | inr w ↦ let e' : none ≡ some crypto = sym l ∙ rw w at e in ground arith
        ]

  judged-link :
      (s : Sent) (hello : Fields) (k : Option String) (d n : String) (v : Verdict) (t : Tcp)
      → verify_hello prim hello (some d) (some n) k ≡ v
      → lookup_secret prim text secret_for (as_str (get "deviceId" hello)) ≡ k
      → t.link ≡ none
      → (judged prim text secret_for s k n v t).link ≡ some crypto
      → Shows prim secret_for d n hello crypto
  unfolding abandon
  judged-link s hello k d n (rejected why) t q st l e = ground arith
  judged-link s hello k d n crashed t q st l e = ground arith
  judged-link s hello none d n (proceed p) t q st l e = ground arith
  judged-link s hello (some secret) d n (proceed p) t q st l e =
      let ((a, b), w, z) = answer-link s secret n p (respond prim secret p) t l e in
      let shown = (verify_hello-IsAuthentic prim hello d n secret p).0 q in
      record {
        secret = secret;
        phone_nonce = p;
        desktop_key = a;
        phone_key = b;
        stored = rw shown.device at st;
        authentic = shown;
        derived = w;
        keys = z;
      }

  with_hello-link :
      (s : Sent) (h : Handshake) (o : Option Fields) (t : Tcp)
      → t.link ≡ none
      → (with_hello prim text secret_for s h o t).link ≡ some crypto
      → (hello : Fields) × (o ≡ some hello) × Shows prim secret_for h.device_id h.nonce hello crypto
  unfolding abandon
  with_hello-link s h none t l e = ground arith
  with_hello-link s h (some hello) t l e =
      (hello, refl, judged-link s hello _ h.device_id h.nonce _ t refl refl l e)

  at_newline-link :
      (s : Sent) (h : Handshake) (o : Option ℕ) (t : Tcp)
      → t.link ≡ none
      → find_byte b'\n' h.buffer ≡ o
      → (at_newline prim text secret_for s h o t).link ≡ some crypto
      → IsEarned prim text secret_for h h.buffer crypto
  unfolding complete_handshake
  at_newline-link s h none t l q e = ground arith
  at_newline-link s h (some i) t l q e =
      let (hello, parsed, shows) =
        with_hello-link s h (hello_in prim text secret_for (text.loads (take i h.buffer))) _ l e in
      record {
        hello = hello;
        stop = i;
        secret = shows.secret;
        phone_nonce = shows.phone_nonce;
        desktop_key = shows.desktop_key;
        phone_key = shows.phone_key;
        line_end = q;
        sent = parsed;
        stored = shows.stored;
        authentic = shows.authentic;
        derived = shows.derived;
        keys = shows.keys;
      }

  read_handshake-link :
      (s : Sent) (r : Received) (h : Handshake) (t : Tcp)
      → t.link ≡ none
      → (read_handshake prim text secret_for s r (some h) t).link ≡ some crypto
      → IsEarned prim text secret_for h (seen h r) crypto
  unfolding abandon
  read_handshake-link s hang_up h t l e = ground arith
  read_handshake-link s nothing_yet h t l e = ground arith
  read_handshake-link s (bytes chunk) h t l e = elim (Bool-cases h.reading) [
    | inr w ↦ ground arith
    | inl w ↦ elim (Bool-cases (is_empty chunk)) [
      | inl x ↦ ground arith
      | inr x ↦ elim (Bool-cases (ltb 8192 (length (h.buffer ++ chunk)))) [
        | inl y ↦ ground arith
        | inr y ↦ earned chunk (
            at_newline-link s (record h { buffer = h.buffer ++ chunk })
              (find_byte b'\n' (h.buffer ++ chunk)) t l refl (read w x y))
      ]
    ]
  ]
    where
      earned :
          (chunk : Bytes)
          → IsEarned prim text secret_for
              (record h { buffer = h.buffer ++ chunk })
              (h.buffer ++ chunk)
              crypto
          → IsEarned prim text secret_for h (h.buffer ++ chunk) crypto
      earned chunk x = record {
        hello = x.hello;
        stop = x.stop;
        secret = x.secret;
        phone_nonce = x.phone_nonce;
        desktop_key = x.desktop_key;
        phone_key = x.phone_key;
        line_end = x.line_end;
        sent = x.sent;
        stored = x.stored;
        authentic = x.authentic;
        derived = x.derived;
        keys = x.keys;
      }

      read :
          h.reading ≡ true
          → is_empty chunk ≡ false
          → ltb 8192 (length (h.buffer ++ chunk)) ≡ false
          → (at_newline prim text secret_for s
              (record h { buffer = h.buffer ++ chunk })
              (find_byte b'\n' (h.buffer ++ chunk))
              t).link
            ≡ some crypto
      read w x y = ground arith

  -- Where no link is up, a handshake in progress brings up a LAN link only where the first line of
  -- the bytes received is a hello that answers the nonce of its offer: with the MAC under the secret
  -- that is stored for the device the offer was for, and for that device. The link's keys are those
  -- of that secret, that nonce and the hello's own.
  pub on_handshake_readable-IsEarned :
      (s : Sent) (r : Received) (h : Handshake) (t : Tcp)
      → t.pending ≡ some h
      → t.link ≡ none
      → (on_handshake_readable prim text secret_for s r t).link ≡ some crypto
      → IsEarned prim text secret_for h (seen h r) crypto
  unfolding on_handshake_readable
  on_handshake_readable-IsEarned s r h t p l e =
      read_handshake-link s r h t l
        (subst (λ o. (read_handshake prim text secret_for s r o t).link ≡ some crypto) p e)
