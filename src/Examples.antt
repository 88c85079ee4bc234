-- ===== src/Examples.antt =====
-- Concrete peers, packets, files and settings, on which the theorems are applied.
pub mod Wire
pub mod Peers
pub mod Desk
pub mod Transfer
pub mod Shell
use fedoralink.Prelude.{
  ℕ, ◌≡◌, refl, Bool, true, false, Option, none, some, List, [], ◌∷◌, ◌++◌, drop, String, arith,
}
use fedoralink.Json.{contains, Json, obj, str, Fields, end, field}
use fedoralink.Framing.{Bytes}
use fedoralink.Protocol.{JsonText, find_byte, is_blank}
use fedoralink.Protocol.RoundTrip.{IsPacket}
use fedoralink.Auth.{Primitives}

-- a packet with nothing in it
abbrev pub ping : Fields
ping = field "type" (str "fedoralink.ping") (field "body" (obj end) end)

-- a hello for the device "phone"
abbrev pub hello : Fields
hello = field "type" (str "hello") (
    field "body" (obj end)
      (field "deviceId" (str "phone") (field "nonce" (str "n2") (field "mac" (str "aa") end))))

-- a codec that knows one object
abbrev pub one_object : Fields → JsonText
one_object fs = record { dumps = λ v. b'{' ∷ b'}' ∷ []; loads = λ bytes. some (obj fs) }

abbrev pub no_json : JsonText
no_json = record { dumps = λ v. b'{' ∷ b'}' ∷ []; loads = λ bytes. none }

abbrev pub zeros32 : Bytes
zeros32 =
    0 ∷ 0 ∷ 0 ∷ 0 ∷ 0 ∷ 0 ∷ 0 ∷ 0 ∷ 0 ∷ 0 ∷ 0 ∷ 0 ∷ 0 ∷ 0 ∷ 0 ∷ 0 ∷ 0 ∷ 0 ∷ 0 ∷ 0 ∷ 0 ∷ 0 ∷ 0 ∷ 0
    ∷ 0 ∷ 0 ∷ 0 ∷ 0 ∷ 0 ∷ 0 ∷ 0 ∷ 0 ∷ []

-- base64, HMAC and SHA-256 with one value each
abbrev pub flat : Primitives
flat = record {
  b64encode = λ bytes. "n1";
  b64decode = λ s. some (7 ∷ []);
  hmac_sha256 = λ key message. zeros32;
  sha256 = λ bytes. zeros32;
  hex = λ bytes. "aa";
}

pub ping-IsPacket : IsPacket (one_object ping) ping
ping-IsPacket = record {
  one_line = unfold find_byte in refl;
  some_text = unfold is_blank in refl;
  read_back = refl;
  has_type = unfold contains in refl;
  has_body = unfold contains in refl;
  short = omega arith;
}
