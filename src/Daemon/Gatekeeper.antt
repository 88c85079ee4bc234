-- ===== src/Daemon/Gatekeeper.antt =====
-- daemon/fedoralink/plugins/auth.py: who may speak.
use fedoralink.Prelude.{
  ℕ, String, Bool, true, false, Option, none, some, List, str_eq, if◌then◌else◌,
}
use fedoralink.Json.{Json, str, Fields, end, field, get, as_text, as_str}
use fedoralink.Auth.{Primitives, new_token, fingerprint, respond, verify}
use fedoralink.Devices.{DeviceStore, secret_for, trust}
use fedoralink.Notification.{enrollment}
use fedoralink.Notification
use fedoralink.Daemon.{
  Daemon, World, escaped, emit, send, auth_type, drop_connection, set_authenticated,
}

-- `AuthPlugin.send`
unfoldable pub send_auth : String → Fields → Daemon → Daemon
unfolding send
send_auth stage body d = (send auth_type (field "stage" (str stage) body) d).1

-- `_refuse`
unfoldable pub refuse : World → String → Daemon → Daemon
unfolding send_auth drop_connection
refuse w reason d = drop_connection w (send_auth "fail" (field "reason" (str reason) end) d)

-- `Text` of the six digits is the caller's: `digits` makes it
module _ (prim : Primitives) (digits : List ℕ → String) where
  -- `_succeed`
  unfoldable pub succeed : World → Daemon → Daemon
  unfolding send_auth set_authenticated
  succeed w d = set_authenticated prim w (send_auth "ok" end d)

  -- the question, and the refusal where nobody can be asked
  abbrev pub asked : World → Option ℕ → Daemon → Daemon
  asked w none d =
      refuse w "could not ask the user to approve the device"
        (record d { gate = record d.gate { prompt_id = none } })
  asked w (some id) d = record d { gate = record d.gate { prompt_id = some id } }

  abbrev pub enroll_with : World → String → Option (List ℕ) → Daemon → Daemon
  enroll_with w secret none d = emit escaped d
  enroll_with w secret (some code) d =
      let d1 =
        send_auth "enroll" (field "secret" (str secret) (field "code" (str (digits code)) end)) d in
      let (id, notes) = Notification.ask w.posted enrollment d1.notes in
      asked w id (record d1 { notes = notes })

  -- `_start_enrollment`
  unfoldable pub start_enrollment : World → Daemon → Daemon
  unfolding send_auth refuse emit
  start_enrollment w d =
      enroll_with w (new_token prim w.secret_bytes)
        (fingerprint prim (new_token prim w.secret_bytes))
        (record d {
          gate = record d.gate { pending_secret = some (new_token prim w.secret_bytes) };
        })

  -- `_challenge`
  unfoldable pub challenge : World → Daemon → Daemon
  unfolding send_auth
  challenge w d =
      let nonce = new_token prim w.nonce_bytes in
      send_auth "challenge" (field "nonce" (str nonce) end)
        (record d { gate = record d.gate { our_nonce = some nonce } })

  abbrev pub name_or_id : String → String → String
  name_or_id name id = if str_eq name "" then id else name

  abbrev pub known_or_new : World → Option String → Daemon → Daemon
  known_or_new w none d = start_enrollment w d
  known_or_new w (some secret) d = challenge w d

  abbrev pub begin_with : World → Option String → String → Daemon → Daemon
  begin_with w none name d = refuse w "peer sent no deviceId" d
  begin_with w (some device_id) name d = known_or_new w (secret_for device_id d.store) (record d {
    gate = record d.gate { peer_id = some device_id; peer_name = name_or_id name device_id };
  })

  -- `begin`
  unfoldable pub begin : World → Json → String → Daemon → Daemon
  unfolding start_enrollment challenge refuse
  begin w device_id name d = begin_with w (as_text device_id) name d

  abbrev pub saved : World → Bool × DeviceStore → Daemon → Daemon
  saved w (true, store) d = succeed w (record d { store = store })
  saved w (false, store) d = emit escaped (record d { store = store })

  abbrev pub approve : World → Option String → Option String → Daemon → Daemon
  approve w none _ d = d
  approve w (some device_id) none d = d
  approve w (some device_id) (some secret) d =
      saved w (trust w.disk device_id d.gate.peer_name secret d.store) d

  abbrev pub is_approval : Option String → Bool
  is_approval none = false
  is_approval (some action) = str_eq action "fedoralink-approve"

  abbrev pub why_not : Option String → String
  why_not none = "approval dialog dismissed"
  why_not (some action) =
      if str_eq action "fedoralink-reject"
      then "rejected by the user"
      else "approval dialog dismissed"

  -- `_enrollment_answered`
  unfoldable pub enrollment_answered : World → Option String → Daemon → Daemon
  unfolding refuse succeed emit
  enrollment_answered w action d =
      let d' = record d { gate = record d.gate { prompt_id = none; pending_secret = none } } in
      if is_approval action
      then approve w d.gate.peer_id d.gate.pending_secret d'
      else refuse w (why_not action) d'

  -- `secret is None or not auth.verify(...)`; none is the TypeError of `verify`
  abbrev pub verified : World → Option Bool → Daemon → Daemon
  verified w none d = emit escaped d
  verified w (some true) d = succeed w d
  verified w (some false) d = refuse w "challenge response did not verify" d

  abbrev pub check_secret : World → String → Json → Option String → Daemon → Daemon
  check_secret w nonce mac none d = refuse w "challenge response did not verify" d
  check_secret w nonce mac (some secret) d = verified w (verify prim secret nonce mac) d

  abbrev pub check_mac : World → Json → Option String → Option String → Daemon → Daemon
  check_mac w mac none _ d = refuse w "unexpected auth response" d
  check_mac w mac (some nonce) none d = refuse w "unexpected auth response" d
  check_mac w mac (some nonce) (some device_id) d =
      check_secret w nonce mac (secret_for device_id d.store) d

  -- `_check_response`
  unfoldable pub check_response : World → Json → Daemon → Daemon
  unfolding refuse succeed emit
  check_response w mac d =
      check_mac w mac d.gate.our_nonce d.gate.peer_id
        (record d { gate = record d.gate { our_nonce = none } })

  abbrev pub send_mac : Option String → Daemon → Daemon
  send_mac none d = d
  send_mac (some mac) d = send_auth "response" (field "mac" (str mac) end) d

  abbrev pub answer_with : String → Option String → Option String → Daemon → Daemon
  answer_with nonce (some secret) _ d = send_mac (respond prim secret nonce) d
  answer_with nonce none (some secret) d = send_mac (respond prim secret nonce) d
  answer_with nonce none none d = d

  abbrev pub stored_secret : Option String → DeviceStore → Option String
  stored_secret none s = none
  stored_secret (some device_id) s = secret_for device_id s

  abbrev pub answer_nonce : Option String → Daemon → Daemon
  answer_nonce none d = d
  answer_nonce (some nonce) d =
      answer_with nonce (stored_secret d.gate.peer_id d.store) d.gate.pending_secret d

  -- `_answer_challenge`
  unfoldable pub answer_challenge : Json → Daemon → Daemon
  unfolding send_auth
  answer_challenge nonce d = answer_nonce (as_text nonce) d

  abbrev pub at_stage : World → Fields → Option String → Daemon → Daemon
  at_stage w body none d = d
  at_stage w body (some stage) d =
      if str_eq stage "response"
      then check_response w (get "mac" body) d
      else if str_eq stage "challenge"
      then answer_challenge (get "nonce" body) d
      else if str_eq stage "fail"
      then drop_connection w d
      else d

  -- `AuthPlugin.on_packet`
  unfoldable pub on_auth_packet : World → Fields → Daemon → Daemon
  unfolding check_response answer_challenge
  on_auth_packet w body d = at_stage w body (as_str (get "stage" body)) d
