-- ===== src/Examples/Peers.antt =====
-- Peers that prove themselves, and peers that do not.
use fedoralink.Prelude.{
  ℕ, ◌≡◌, ◌↔◌, refl, true, false, Option, none, some, List, [], ◌∷◌, take, String, arith, inl,
}
use fedoralink.Json.{
  obj, str, bool, nil, Fields, end, field, get, as_str, as_text, as_fields, truthy,
}
use fedoralink.Protocol.{serialize, find_byte}
use fedoralink.Auth.{respond, verify, decode, is_ascii, compare_digest}
use fedoralink.Session.{new_crypto, verify_hello, proceed, derive_keys, hkdf, hkdf_loop}
use fedoralink.Session.Keys.{IsAuthentic, verify_hello-IsAuthentic, hkdf-blocks, blocks}
use fedoralink.Link.{took}
use fedoralink.Devices.{DeviceStore, missing, trust, save, secret_for, entry_secret}
use fedoralink.Notification.{Notifications}
use fedoralink.Upgrade.{
  Tcp, idle_tcp, Handshake, on_handshake_readable, bytes, hang_up, complete_handshake,
}
use fedoralink.Upgrade.Offers.{
  caller, timeout, readable, run, IsExclusive, IsShut, run-IsExclusive, run_one_attempt,
}
use fedoralink.Upgrade.Trusted.{IsEarned, on_handshake_readable-IsEarned}
use fedoralink.Daemon.{
  Daemon, World, auth_type, drop_connection, set_authenticated, offer_lan_upgrade, send, emit,
}
use fedoralink.Daemon.Gatekeeper.{
  check_response, enrollment_answered, on_auth_packet, succeed, send_auth,
}
use fedoralink.Daemon.Dispatch.{on_packet, route}
use fedoralink.Daemon.Authentication.{IsProved, on_packet-authenticated}
use fedoralink.Daemon.Ending.{
  IsBlank, drop_connection-IsBlank, check_response-our_nonce, enrollment_answered-authenticated,
}
use fedoralink.Daemon.Forget.{forget_devices, secret_for-forget_devices}
use fedoralink.Plugins.Media.{cleared}
use fedoralink.Examples.{hello, one_object, flat, zeros32}

abbrev no_notes : Notifications
no_notes = record {
  has_bus = true;
  remote_to_local = [];
  local_to_remote = [];
  repliable = [];
  titles = [];
  self_closed = [];
  own_actions = [];
}

-- the store with the device "phone"
abbrev one_device : DeviceStore
one_device = record {
  known = field "phone" (obj (field "name" (str "Phone") (field "secret" (str "s") end))) end;
  file = missing;
}

abbrev pub world : World
world = record {
  secret_bytes = zeros32;
  nonce_bytes = zeros32;
  offer_bytes = zeros32;
  posted = some 7;
  closes = λ id. true;
  bound = some 4000;
  hosts = nil;
  disk = true;
  bridge = true;
  host_name = "desk";
  desktop_id = "d";
}

-- connected over Bluetooth, and asked to answer the nonce "n1"
abbrev pub challenged : Daemon
challenged = record {
  config = field "lan_transport" (bool false) end;
  connected = true;
  authenticated = false;
  session_was_authenticated = false;
  device_name = "Phone";
  peer_device_id = some "phone";
  rfcomm = true;
  tcp = idle_tcp;
  gate = record {
    peer_id = some "phone";
    peer_name = "Phone";
    our_nonce = some "n1";
    pending_secret = none;
    prompt_id = none;
  };
  store = one_device;
  notes = no_notes;
  battery = record { level = none; charging = false; warned = false };
  clipboard = none;
  media = cleared;
  presence = record { has_bus = true; grace = none };
  out = [];
}

-- a new device that waits for the user
abbrev enrolling : Daemon
enrolling = record challenged {
  gate = record {
    peer_id = some "new";
    peer_name = "New";
    our_nonce = none;
    pending_secret = some "fresh";
    prompt_id = some 7;
  };
}

abbrev approval : Option String
approval = some "fedoralink-approve"

abbrev digits : List ℕ → String
digits code = "000000"

abbrev response : Fields
response = field "stage" (str "response") (field "mac" (str "aa") end)

on_packet-authenticated_example : IsProved flat challenged auth_type response
unfolding on_packet route on_auth_packet check_response secret_for entry_secret verify respond
    decode is_ascii compare_digest succeed send_auth set_authenticated offer_lan_upgrade send emit
    get as_str as_text as_fields truthy
on_packet-authenticated_example =
    on_packet-authenticated flat digits world auth_type response challenged refl refl

drop_connection-IsBlank_example : IsBlank (drop_connection world challenged)
drop_connection-IsBlank_example = drop_connection-IsBlank world challenged refl

check_response-our_nonce_example :
    (check_response flat digits world (str "bb") challenged).gate.our_nonce ≡ none
check_response-our_nonce_example = check_response-our_nonce flat digits world (str "bb") challenged

enrollment_answered-authenticated_example :
    (x : String × String) × (approval ≡ approval)
    × (enrolling.gate.peer_id ≡ some x.0)
    × (enrolling.gate.pending_secret ≡ some x.1)
    × (secret_for x.0 (enrollment_answered flat digits world approval enrolling).store ≡ some x.1)
unfolding enrollment_answered trust save succeed send_auth set_authenticated offer_lan_upgrade send
    emit get truthy
enrollment_answered-authenticated_example =
    enrollment_answered-authenticated flat digits world approval enrolling refl refl

abbrev secrets : String → Option String
secrets device_id = some "s"

-- the handshake of a caller
abbrev shaking : Handshake
shaking = record { nonce = "n1"; device_id = "phone"; buffer = []; reading = true }

abbrev pending : Tcp
pending = record idle_tcp { pending = some shaking; server = some 4000 }

abbrev offered : Tcp
offered = record idle_tcp { server = some 4000; nonce = some "n1"; expect_device = some "phone" }

on_handshake_readable-IsEarned_example :
    IsEarned flat
      (one_object hello)
      secrets
      shaking
      (b'{' ∷ b'}' ∷ b'\n' ∷ [])
      (new_crypto zeros32 zeros32)
unfolding on_handshake_readable complete_handshake find_byte verify_hello verify respond decode
    is_ascii compare_digest derive_keys hkdf hkdf_loop serialize get as_str as_text as_fields
on_handshake_readable-IsEarned_example =
    on_handshake_readable-IsEarned flat (one_object hello) secrets (new_crypto zeros32 zeros32)
      (took 3) (bytes (b'{' ∷ b'}' ∷ b'\n' ∷ [])) shaking pending refl refl refl

run-IsExclusive_example : IsExclusive (
    run flat
      (one_object hello)
      secrets
      (caller ∷ readable (took 3) (bytes (b'{' ∷ b'\n' ∷ [])) ∷ caller ∷ [])
      offered)
run-IsExclusive_example =
    run-IsExclusive flat (one_object hello) secrets
      (caller ∷ readable (took 3) (bytes (b'{' ∷ b'\n' ∷ [])) ∷ caller ∷ []) offered
      (record { one_slot = inl refl })

run_one_attempt_example : IsShut (
    run flat
      (one_object hello)
      secrets
      (caller ∷ timeout ∷ caller ∷ readable (took 3) hang_up ∷ [])
      offered)
run_one_attempt_example =
    run_one_attempt flat (one_object hello) secrets (caller ∷ readable (took 3) hang_up ∷ [])
      offered refl refl refl

verify_hello-IsAuthentic_example :
    (verify_hello flat hello (some "phone") (some "n1") (some "s") ≡ proceed "n2")
    ↔ IsAuthentic flat hello "phone" "n1" "s" "n2"
verify_hello-IsAuthentic_example = verify_hello-IsAuthentic flat hello "phone" "n1" "s" "n2"

abbrev text_of : Option String → String
text_of none = ""
text_of (some s) = s

hkdf-blocks_example :
    hkdf flat (1 ∷ []) (2 ∷ []) (3 ∷ []) 40 ≡ some (take 40 (blocks flat zeros32 (3 ∷ []) [] 1 2))
hkdf-blocks_example =
    hkdf-blocks flat (λ k m. refl) (1 ∷ []) (2 ∷ []) (3 ∷ []) 40 2 (omega arith) (omega arith)
      (omega arith)

secret_for-forget_devices_example :
    secret_for "phone" (forget_devices world challenged).1.store ≡ none
secret_for-forget_devices_example = secret_for-forget_devices world challenged "phone" refl
