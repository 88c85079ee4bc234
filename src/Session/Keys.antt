-- ===== src/Session/Keys.antt =====
-- `verify_hello` on every path, and what `hkdf` and `derive_keys` return.
use fedoralink.Prelude.{
  ℕ, zero, suc, ◌+◌, ◌*◌, ◌<◌, ◌≤◌, ◌≡◌, ◌≢◌, ◌↔◌, refl, String, true, false, Option, none, some,
  [], ◌∷◌, ◌++◌, length, length-append, take, take_of_length-le, is_empty, lt→ltb, le→ltb, eq_refl,
  append_assoc_lem, ap, eq_iff, arith, append-nil, ◌∙◌,
}
use fedoralink.Json.{Fields, get, as_str, as_text}
use fedoralink.Framing.{Bytes}
use fedoralink.Auth.{Primitives, verify, decode, not_empty}
use fedoralink.Session.{
  proceed, verify_hello, is_device, judge_nonce, hkdf_loop, hkdf, derive_keys, with_material,
  key_bytes, hkdf_info_desktop, hkdf_info_phone, ok,
}

-- What a hello must bring to be let in.
pub record IsAuthentic (prim : Primitives) (hello : Fields)
    (expected nonce secret phone_nonce : String) : Type 0 where
  pub device : as_str (get "deviceId" hello) ≡ some expected
  pub nonce_sent : as_text (get "nonce" hello) ≡ some phone_nonce
  pub mac : verify prim secret nonce (get "mac" hello) ≡ some true

is_device-eq :
    (expected : String) (o : Option String) → is_device expected o ≡ true → o ≡ some expected
is_device-eq expected none h = cc
is_device-eq expected (some id) h = ap some ((eq_iff id expected).0 h)

module _ (prim : Primitives) (hello : Fields) where
  judge_nonce-proceed :
      (n s p : String) (o : Option String)
      → judge_nonce prim hello n (some s) o ≡ proceed p
      → (o ≡ some p) × (verify prim s n (get "mac" hello) ≡ some true)
  judge_nonce-proceed n s p none h = cc
  judge_nonce-proceed n s p (some q) h = ground arith

  -- With an outstanding offer and a stored secret, a hello proceeds exactly when it comes from the
  -- device that was offered to, brings a nonce of its own, and answers the offer's nonce with a
  -- response that verifies; the verdict carries the phone's nonce.
  pub verify_hello-IsAuthentic :
      (e n s p : String)
      → (verify_hello prim hello (some e) (some n) (some s) ≡ proceed p)
        ↔ IsAuthentic prim hello e n s p
  unfolding verify_hello
  verify_hello-IsAuthentic e n s p = (
    (λ h.
        let d : is_device e (as_str (get "deviceId" hello)) ≡ true = ground arith in
        let (q, v) = judge_nonce-proceed n s p (as_text (get "nonce" hello)) (rw d at h) in
        record { device = is_device-eq e _ d; nonce_sent = q; mac = v }),
    (λ a. rw (a.device, a.nonce_sent, a.mac, eq_refl e) refl),
  )

  -- Without an offer, without the device it was for, or without a secret, no hello proceeds.
  pub verify_hello_needs_all :
      (expected nonce secret : Option String) (p : String)
      → verify_hello prim hello expected nonce secret ≡ proceed p
      → (expected ≢ none) × (nonce ≢ none) × (secret ≢ none)
  unfolding verify_hello
  verify_hello_needs_all none offered secret p h = cc
  verify_hello_needs_all (some e) none secret p h = cc
  verify_hello_needs_all (some e) (some n) none p h = absurd (ground arith)
  verify_hello_needs_all (some e) (some n) (some s) p h = ((λ q. cc), (λ q. cc), (λ q. cc))

-- RFC 5869: the blocks T(counter), T(counter + 1), ..., one behind the other.
pub blocks : Primitives → Bytes → Bytes → Bytes → ℕ → ℕ → Bytes
blocks prim prk info block counter zero = []
blocks prim prk info block counter (suc n) =
    let next = prim.hmac_sha256 prk (block ++ (info ++ counter ∷ [])) in
    next ++ blocks prim prk info next (counter + 1) n

module _ (prim : Primitives) (wide : (k m : Bytes) → length (prim.hmac_sha256 k m) ≡ 32) where
  -- `n` more rounds reach the length, and not one fewer
  hkdf_loop-blocks :
      (n fuel : ℕ) (prk info : Bytes) (len : ℕ) (out block : Bytes) (counter : ℕ)
      → n < fuel
      → len ≤ length out + 32 * n
      → length out + 32 * n < len + 32
      → counter + n ≤ 256
      → hkdf_loop prim fuel prk info len out block counter
        ≡ some (take len (out ++ blocks prim prk info block counter n))
  unfolding hkdf_loop blocks
  hkdf_loop-blocks n zero prk info len out block counter f a b c = absurd (omega arith)
  hkdf_loop-blocks zero (suc fuel) prk info len out block counter f a b c =
      rw (le→ltb (length out) len (omega arith), append-nil) refl
  hkdf_loop-blocks (suc n) (suc fuel) prk info len out block counter f a b c =
      let next = prim.hmac_sha256 prk (block ++ (info ++ counter ∷ [])) in
      let w = wide prk (block ++ (info ++ counter ∷ [])) in
      let l = length-append out next in
      rw (lt→ltb (length out) len (omega arith), lt→ltb counter 256 (omega arith))
        (hkdf_loop-blocks n fuel prk info len (out ++ next) next (counter + 1) (omega arith)
            (omega arith) (omega arith) (omega arith)
          ∙ ap (λ x. some (take len x))
              (append_assoc_lem out next (blocks prim prk info next (counter + 1) n)))

  -- With an HMAC of 32 bytes, `hkdf` returns for up to 255 blocks, and what it returns is the
  -- first `len` bytes of the blocks of RFC 5869, of which it makes as many as are needed.
  pub hkdf-blocks :
      (secret salt info : Bytes) (len n : ℕ)
      → len ≤ 32 * n
      → 32 * n < len + 32
      → n ≤ 255
      → hkdf prim secret salt info len
        ≡ some (take len (blocks prim (prim.hmac_sha256 salt secret) info [] 1 n))
  unfolding hkdf
  hkdf-blocks secret salt info len n a b c =
      hkdf_loop-blocks n (suc len) (prim.hmac_sha256 salt secret) info len [] [] 1 (omega arith)
        (omega arith) (omega arith) (omega arith)

  one_length : (prk info : Bytes) → length (blocks prim prk info [] 1 1) ≤ 32
  unfolding blocks
  one_length prk info =
      omega
        (arith, length-append (prim.hmac_sha256 prk (info ++ 1 ∷ [])) [], wide prk (info ++ 1 ∷ []))

  -- From material that is base64 and not empty `derive_keys` makes two keys of 32 bytes each, with
  -- both nonces in the salt and a label of its own for each direction.
  pub derive_keys-blocks :
      (secret desktop phone : String) (s d p : Bytes)
      → prim.b64decode secret ≡ some s
      → prim.b64decode desktop ≡ some d
      → prim.b64decode phone ≡ some p
      → is_empty s ≡ false
      → is_empty d ≡ false
      → is_empty p ≡ false
      → derive_keys prim secret desktop phone
        ≡ ok (
          blocks prim (prim.hmac_sha256 (d ++ p) s) hkdf_info_desktop [] 1 1,
          blocks prim (prim.hmac_sha256 (d ++ p) s) hkdf_info_phone [] 1 1,
        )
  unfolding derive_keys
  derive_keys-blocks secret desktop phone s d p es ed ep ns nd np =
      rw (es, ed, ep, ns, nd, np)
        (rw (one_block s (d ++ p) hkdf_info_desktop, one_block s (d ++ p) hkdf_info_phone) refl)
    where
      one_block :
          (secret salt info : Bytes)
          → hkdf prim secret salt info key_bytes
            ≡ some (blocks prim (prim.hmac_sha256 salt secret) info [] 1 1)
      one_block secret salt info =
          hkdf-blocks secret salt info key_bytes 1 (omega arith) (omega arith) (omega arith)
          ∙ ap some (
              take_of_length-le 32 (blocks prim (prim.hmac_sha256 salt secret) info [] 1 1)
                (one_length (prim.hmac_sha256 salt secret) info))

-- Material of which any part is empty or no base64 gives no keys.
pub derive_keys_needs_all :
    (prim : Primitives) (secret desktop phone : String) (keys : Bytes × Bytes)
    → derive_keys prim secret desktop phone ≡ ok keys
    → (decode prim secret ≢ none) × (decode prim desktop ≢ none) × (decode prim phone ≢ none)
unfolding derive_keys decode
derive_keys_needs_all prim secret desktop phone keys h =
    go (prim.b64decode secret) (prim.b64decode desktop) (prim.b64decode phone) h
  where
    go :
        (s d p : Option Bytes)
        → with_material prim s d p ≡ ok keys
        → (not_empty s ≢ none) × (not_empty d ≢ none) × (not_empty p ≢ none)
    go none _ _ h = absurd (ground arith)
    go (some s) none _ h = absurd (ground arith)
    go (some s) (some d) none h = absurd (ground arith)
    go (some s) (some d) (some p) h = (λ e. ground arith, λ e. ground arith, λ e. ground arith)
