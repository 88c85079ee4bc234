-- ===== src/Auth/Laws.antt =====
-- daemon/fedoralink/auth.py: the challenge, its answer, and what the human compares.
use fedoralink.Prelude.{
  ℕ, zero, suc, ◌+◌, ◌/◌, ◌%◌, ◌^◌, ◌≡◌, ◌↔◌, refl, String, Bool, true, false, none, some, List, [],
  ◌∷◌, length, length-append, take, every, every_append, str_eq, eq_iff, Option-cases, inl, inr,
  arith, ◌&&◌, leb,
}
use fedoralink.Json.{Json, as_text}
use fedoralink.BigEndian.{from_bytes}
use fedoralink.Auth.{
  Primitives, decimal, is_ascii, fingerprint, respond, verify, compare_digest, decode,
}

-- a response that is a text of ASCII characters and not empty
pub record IsAnswer (response : Json) (text : String) : Type 0 where
  pub is_text : as_text response ≡ some text
  pub ascii : is_ascii text ≡ true

compare_ascii :
    (a b : String) → is_ascii a ≡ true → is_ascii b ≡ true → compare_digest a b ≡ some (str_eq a b)
unfolding compare_digest
compare_ascii a b p q = rw (p, q) refl

compare_other : (a b : String) → is_ascii b ≡ false → compare_digest a b ≡ none
unfolding compare_digest
compare_other a b q = rw q (ground arith)

module _ (prim : Primitives) (secret nonce : String) (response : Json) where
  -- A response that is a non-empty text of ASCII characters is accepted exactly when it is the
  -- answer that `respond` gives to the same secret and nonce, where that answer is ASCII.
  pub verify-respond :
      {text : String}
      → IsAnswer response text
      → ((mac : String) → respond prim secret nonce ≡ some mac → is_ascii mac ≡ true)
      → (verify prim secret nonce response ≡ some true) ↔ (respond prim secret nonce ≡ some text)
  unfolding verify
  verify-respond {text} answer hex_ascii = elim (Option-cases (respond prim secret nonce)) [
    | inl p ↦ rw (answer.is_text, p) ((λ h. cc), (λ h. cc))
    | inr (mac, p) ↦
        rw (answer.is_text, p)
          (rw (compare_ascii mac text (hex_ascii mac p) answer.ascii)
            ((λ h. ground (arith, eq_iff mac text)), (λ h. ground (arith, eq_iff mac text))))
  ]

  -- A response text that is not ASCII is not refused: the comparison raises, although the secret
  -- and the nonce are sound.
  pub verify_raises :
      {text mac : String}
      → as_text response ≡ some text
      → is_ascii text ≡ false
      → respond prim secret nonce ≡ some mac
      → verify prim secret nonce response ≡ none
  unfolding verify
  verify_raises {text} {mac} e a m = rw (e, m) (compare_other mac text a)

abbrev is_digit : ℕ → Bool
is_digit c = leb b'0' c && leb c b'9'

decimal-digits : (w n : ℕ) → (length (decimal w n) ≡ w) × (every is_digit (decimal w n) ≡ true)
unfolding decimal
decimal-digits zero n = (refl, refl)
decimal-digits (suc w) n =
    let (l, d) = decimal-digits w (n / 10) in
    (
      omega (arith, length-append (decimal w (n / 10)) ((b'0' + n % 10) ∷ [])),
      rw (every_append, d) (ground arith),
    )

-- The fingerprint that a human compares has six characters, all decimal digits.
pub length-fingerprint :
    (prim : Primitives) (secret : String) (digits : List ℕ)
    → fingerprint prim secret ≡ some digits
    → (length digits ≡ 6) × (every is_digit digits ≡ true)
unfolding fingerprint
length-fingerprint prim secret digits e = elim (Option-cases (decode prim secret)) [
  | inl p ↦ absurd (ground arith)
  | inr (raw, p) ↦
      let d = decimal-digits 6 (from_bytes (take 8 (prim.sha256 raw)) % 10 ^ 6) in
      let q : some (decimal 6 (from_bytes (take 8 (prim.sha256 raw)) % 10 ^ 6)) ≡ some digits =
        rw p at e in
      ground arith
]
