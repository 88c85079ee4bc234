-- ===== src/Auth.antt =====
-- daemon/fedoralink/auth.py: minting, fingerprints, and the challenge-response.
pub mod Laws
use Prim.Native.Char.{code}
use Prim.Native.String
use fedoralink.Prelude.{
  ℕ, zero, suc, ◌+◌, ◌/◌, ◌%◌, ◌^◌, String, Bool, true, false, ◌&&◌, Option, none, some, List, [],
  ◌∷◌, ◌++◌, take, every, ltb, str_eq, if◌then◌else◌, is_empty,
}
use fedoralink.Json.{Json, as_text}
use fedoralink.Framing.{Bytes}
use fedoralink.BigEndian.{from_bytes}

-- `base64`, `hmac`, `hashlib` and `bytes.hex` of the standard library. `b64decode` is the strict
-- one (`validate=True`), `none` for its ValueError.
pub record Primitives : Type 0 where
  pub b64encode : Bytes → String
  pub b64decode : String → Option Bytes
  pub hmac_sha256 : Bytes → Bytes → Bytes
  pub sha256 : Bytes → Bytes
  pub hex : Bytes → String

abbrev pub secret_bytes : ℕ
secret_bytes = 32

abbrev pub fingerprint_digits : ℕ
fingerprint_digits = 6

abbrev pub codes : String → List ℕ
codes String.[] = []
codes (String.◌∷◌ c s) = code c ∷ codes s

unfoldable pub is_ascii : String → Bool
is_ascii s = every (λ c. ltb c 128) (codes s)

-- the last `width` decimal digits; `f"{value:06d}"` for a value below 10 ** 6
unfoldable pub decimal : ℕ → ℕ → List ℕ
decimal zero n = []
decimal (suc w) n = decimal w (n / 10) ++ (b'0' + n % 10) ∷ []

-- `hmac.compare_digest` of two texts: `none` is the TypeError for a text that is not ASCII
unfoldable pub compare_digest : String → String → Option Bool
unfolding is_ascii
compare_digest a b = if is_ascii a && is_ascii b then some (str_eq a b) else none

abbrev pub not_empty : Option Bytes → Option Bytes
not_empty none = none
not_empty (some raw) = if is_empty raw then none else some raw

module _ (prim : Primitives) where
  -- `new_secret` and `new_nonce`, from the bytes that `secrets.token_bytes` returned
  unfoldable pub new_token : Bytes → String
  new_token random = prim.b64encode random

  -- `_decode`; `none` is its ValueError
  unfoldable pub decode : String → Option Bytes
  decode value = not_empty (prim.b64decode value)

  abbrev first_digits : Option Bytes → Option (List ℕ)
  first_digits none = none
  first_digits (some raw) =
      some (
        decimal fingerprint_digits
          (from_bytes (take 8 (prim.sha256 raw)) % 10 ^ fingerprint_digits))

  unfoldable pub fingerprint : String → Option (List ℕ)
  unfolding decode
  fingerprint secret = first_digits (decode secret)

  abbrev mac_of : Option Bytes → Option Bytes → Option String
  mac_of none _ = none
  mac_of (some key) none = none
  mac_of (some key) (some nonce) = some (prim.hex (prim.hmac_sha256 key nonce))

  -- `respond`; `none` is the ValueError of `_decode`
  unfoldable pub respond : String → String → Option String
  unfolding decode
  respond secret nonce = mac_of (decode secret) (decode nonce)

  abbrev check : Option String → String → Option Bool
  check none response = some false
  check (some expected) response = compare_digest expected response

  abbrev check_text : String → String → Option String → Option Bool
  check_text secret nonce none = some false
  check_text secret nonce (some text) = check (respond secret nonce) text

  -- `verify`; `none` is the TypeError that `compare_digest` lets through
  unfoldable pub verify : String → String → Json → Option Bool
  unfolding respond compare_digest
  verify secret nonce response = check_text secret nonce (as_text response)
