-- ===== src/Daemon/Authentication.antt =====
-- How a peer becomes authenticated.
use fedoralink.Prelude.{
  ℕ, ◌≡◌, inl, inr, refl, sym, ◌∙◌, ap, String, Bool, true, false, not, ◌&&◌, Option, none, some,
  List, str_eq, eq_iff, arith, Bool-cases, Option-cases,
}
use fedoralink.Notification.{enrollment}
use fedoralink.Notification
use fedoralink.Json.{Json, str, Fields, end, field, get, as_str, as_text}
use fedoralink.Auth.{Primitives, verify, fingerprint, new_token, respond}
use fedoralink.Devices.{secret_for}
use fedoralink.Daemon.{
  Daemon, World, emit, send, tcp_stop, reset, plugins_disconnected, on_disconnected, disconnect,
  drop_connection, auth_type, identity_type,
}
use fedoralink.Daemon.Gatekeeper.{
  send_auth, refuse, asked, enroll_with, start_enrollment, challenge, known_or_new, name_or_id,
  begin_with, begin, verified, check_mac, check_response, send_mac, answer_with, answer_nonce,
  answer_challenge, stored_secret, at_stage, on_auth_packet,
}
use fedoralink.Daemon.Dispatch.{on_identity, on_packet, route, named, is_new_enough}

pub send_keeps :
    (t : String) (body : Fields) (d : Daemon)
    → ((send t body d).1.authenticated ≡ d.authenticated)
      × ((send t body d).1.rfcomm ≡ d.rfcomm)
      × ((send t body d).1.gate ≡ d.gate)
unfolding send emit
send_keeps t body d = ground arith

disconnect-authenticated :
    (w : World) (d : Daemon) → d.authenticated ≡ false → (disconnect w d).authenticated ≡ false
unfolding disconnect on_disconnected plugins_disconnected tcp_stop emit reset
disconnect-authenticated w d e = ground arith

pub drop-authenticated : (w : World) (d : Daemon) → (drop_connection w d).authenticated ≡ false
unfolding drop_connection
drop-authenticated w d = disconnect-authenticated w (record d { authenticated = false }) refl

send_auth-authenticated :
    (stage : String) (body : Fields) (d : Daemon)
    → (send_auth stage body d).authenticated ≡ d.authenticated
unfolding send_auth
send_auth-authenticated stage body d = (send_keeps auth_type _ d).0

pub refuse-authenticated :
    (w : World) (reason : String) (d : Daemon) → (refuse w reason d).authenticated ≡ false
unfolding refuse
refuse-authenticated w reason d =
    drop-authenticated w (send_auth "fail" (field "reason" (str reason) end) d)

-- What a peer has shown: the answer to the nonce that is outstanding, under the secret that is
-- stored for it.
pub record IsProved (prim : Primitives) (d : Daemon) (t : String) (body : Fields) : Type 0 where
  pub nonce : String
  pub device_id : String
  pub secret : String
  pub is_auth : t ≡ auth_type
  pub stage : as_str (get "stage" body) ≡ some "response"
  pub challenged : d.gate.our_nonce ≡ some nonce
  pub peer : d.gate.peer_id ≡ some device_id
  pub stored : secret_for device_id d.store ≡ some secret
  pub answered : verify prim secret nonce (get "mac" body) ≡ some true

module _ (prim : Primitives) (digits : List ℕ → String) where
  asked-authenticated :
      (w : World) (o : Option ℕ) (d : Daemon)
      → d.authenticated ≡ false
      → (asked prim digits w o d).authenticated ≡ false
  asked-authenticated w none d e =
      refuse-authenticated w "could not ask the user to approve the device"
        (record d { gate = record d.gate { prompt_id = none } })
  asked-authenticated w (some id) d e = e

  enroll_with-authenticated :
      (w : World) (secret : String) (o : Option (List ℕ)) (d : Daemon)
      → d.authenticated ≡ false
      → (enroll_with prim digits w secret o d).authenticated ≡ false
  unfolding emit
  enroll_with-authenticated w secret none d e = e
  enroll_with-authenticated w secret (some code) d e =
      asked-authenticated w _
        (record (send_auth "enroll"
          (field "secret" (str secret) (field "code" (str (digits code)) end)) d) {
            notes =
                (Notification.ask w.posted enrollment
                  (send_auth "enroll"
                    (field "secret" (str secret) (field "code" (str (digits code)) end))
                    d).notes).1;
          })
        (send_auth-authenticated "enroll" _ d ∙ e)

  known_or_new-authenticated :
      (w : World) (o : Option String) (d : Daemon)
      → d.authenticated ≡ false
      → (known_or_new prim digits w o d).authenticated ≡ false
  unfolding start_enrollment challenge
  known_or_new-authenticated w none d e =
      enroll_with-authenticated w (new_token prim w.secret_bytes)
        (fingerprint prim (new_token prim w.secret_bytes))
        (record d {
          gate = record d.gate { pending_secret = some (new_token prim w.secret_bytes) };
        })
        e
  known_or_new-authenticated w (some secret) d e =
      send_auth-authenticated "challenge" (field "nonce" (str (new_token prim w.nonce_bytes)) end)
        (record d { gate = record d.gate { our_nonce = some (new_token prim w.nonce_bytes) } })
      ∙ e

  begin_with-authenticated :
      (w : World) (o : Option String) (name : String) (d : Daemon)
      → d.authenticated ≡ false
      → (begin_with prim digits w o name d).authenticated ≡ false
  begin_with-authenticated w none name d e = refuse-authenticated w "peer sent no deviceId" d
  begin_with-authenticated w (some id) name d e =
      known_or_new-authenticated w (secret_for id d.store)
        (record d {
          gate = record d.gate { peer_id = some id; peer_name = name_or_id prim digits name id };
        })
        e

  named-authenticated :
      (o : Option String) (d : Daemon) → (named o d).authenticated ≡ d.authenticated
  unfolding emit
  named-authenticated none d = refl
  named-authenticated (some name) d = refl

  on_identity-authenticated :
      (w : World) (body : Fields) (d : Daemon)
      → d.authenticated ≡ false
      → (on_identity prim digits w body d).authenticated ≡ false
  unfolding on_identity begin
  on_identity-authenticated w body d e =
      elim (Bool-cases (is_new_enough (get "protocolVersion" body))) [
        | inl v ↦ rw v (
            begin_with-authenticated w (as_text (get "deviceId" body))
              (named (as_text (get "deviceName" body)) d).device_name
              (record (named (as_text (get "deviceName" body)) d) {
                peer_device_id = as_str (get "deviceId" body);
              })
              (named-authenticated (as_text (get "deviceName" body)) d ∙ e))
        | inr v ↦ rw v (drop-authenticated w (named (as_text (get "deviceName" body)) d))
      ]

  send_mac-authenticated :
      (o : Option String) (d : Daemon) → (send_mac prim digits o d).authenticated ≡ d.authenticated
  send_mac-authenticated none d = refl
  send_mac-authenticated (some mac) d = send_auth-authenticated "response" _ d

  answer_nonce-authenticated :
      (o : Option String) (d : Daemon)
      → (answer_nonce prim digits o d).authenticated ≡ d.authenticated
  answer_nonce-authenticated none d = refl
  answer_nonce-authenticated (some nonce) d =
      with_secret (stored_secret prim digits d.gate.peer_id d.store) d.gate.pending_secret
    where
      with_secret :
          (a b : Option String)
          → (answer_with prim digits nonce a b d).authenticated ≡ d.authenticated
      with_secret (some s) b = send_mac-authenticated (respond prim s nonce) d
      with_secret none (some s) = send_mac-authenticated (respond prim s nonce) d
      with_secret none none = refl

  verified-authenticated :
      (w : World) (o : Option Bool) (d : Daemon)
      → d.authenticated ≡ false
      → (verified prim digits w o d).authenticated ≡ true
      → o ≡ some true
  unfolding emit
  verified-authenticated w none d e h = let q : false ≡ true = sym e ∙ h in ground arith
  verified-authenticated w (some true) d e h = refl
  verified-authenticated w (some false) d e h =
      let q : false ≡ true =
        sym (refuse-authenticated w "challenge response did not verify" d) ∙ h in
      ground arith

  check_mac-authenticated :
      (w : World) (mac : Json) (n p : Option String) (d : Daemon)
      → d.authenticated ≡ false
      → (check_mac prim digits w mac n p d).authenticated ≡ true
      → (x : String × String × String) × (n ≡ some x.0)
        × (p ≡ some x.1)
        × (secret_for x.1 d.store ≡ some x.2)
        × (verify prim x.2 x.0 mac ≡ some true)
  check_mac-authenticated w mac none p d e h =
      let q : false ≡ true = sym (refuse-authenticated w "unexpected auth response" d) ∙ h in
      ground arith
  check_mac-authenticated w mac (some n) none d e h =
      let q : false ≡ true = sym (refuse-authenticated w "unexpected auth response" d) ∙ h in
      ground arith
  check_mac-authenticated w mac (some n) (some p) d e h =
      elim (Option-cases (secret_for p d.store)) [
        | inl s ↦
            let q : false ≡ true =
              sym (refuse-authenticated w "challenge response did not verify" d) ∙ rw s at h in
            ground arith
        | inr (secret, s) ↦ (
          (n, p, secret),
          refl,
          refl,
          s,
          verified-authenticated w (verify prim secret n mac) d e (rw s at h),
        )
      ]

  at_stage-authenticated :
      (w : World) (body : Fields) (o : Option String) (d : Daemon)
      → o ≡ as_str (get "stage" body)
      → d.authenticated ≡ false
      → (at_stage prim digits w body o d).authenticated ≡ true
      → IsProved prim d auth_type body
  unfolding check_response answer_challenge
  at_stage-authenticated w body none d q e h = let z : false ≡ true = sym e ∙ h in ground arith
  at_stage-authenticated w body (some stage) d q e h = elim (Bool-cases (str_eq stage "response")) [
    | inl r ↦
        let ((n, p, k), a, b, c, v) =
          check_mac-authenticated w (get "mac" body) d.gate.our_nonce d.gate.peer_id
            (record d { gate = record d.gate { our_nonce = none } }) e (rw r at h) in
        record {
          nonce = n;
          device_id = p;
          secret = k;
          is_auth = refl;
          stage = sym q ∙ ap some ((eq_iff stage "response").0 r);
          challenged = a;
          peer = b;
          stored = c;
          answered = v;
        }
    | inr r ↦ elim (Bool-cases (str_eq stage "challenge")) [
      | inl c ↦
          let z : false ≡ true =
            sym (answer_nonce-authenticated (as_text (get "nonce" body)) d ∙ e) ∙ rw (r, c) at h in
          ground arith
      | inr c ↦ elim (Bool-cases (str_eq stage "fail")) [
        | inl f ↦
            let z : false ≡ true = sym (drop-authenticated w d) ∙ rw (r, c, f) at h in ground arith
        | inr f ↦ let z : false ≡ true = sym e ∙ rw (r, c, f) at h in ground arith
      ]
    ]
  ]

  -- From a packet, an unauthenticated peer becomes authenticated only by the answer to the nonce that is
  -- outstanding, with a MAC that verifies under the secret stored for the device it says it is.
  pub on_packet-authenticated :
      (w : World) (t : String) (body : Fields) (d : Daemon)
      → d.authenticated ≡ false
      → (on_packet prim digits w t body d).authenticated ≡ true
      → IsProved prim d t body
  unfolding on_packet route on_auth_packet check_response answer_challenge
  on_packet-authenticated w t body d e h = elim (Bool-cases (str_eq t identity_type)) [
    | inl i ↦
        let z : false ≡ true = sym (on_identity-authenticated w body d e) ∙ rw i at h in
        ground arith
    | inr i ↦ elim (Bool-cases (str_eq t auth_type)) [
      | inl a ↦
          let stage = as_str (get "stage" body) in
          let pass : (not d.authenticated && not (str_eq t auth_type)) ≡ false = rw (e, a) refl in
          rw ((eq_iff t auth_type).0 a)
            (at_stage-authenticated w body stage d refl e (rw (i, pass, a) at h))
      | inr a ↦
          let stop : (not d.authenticated && not (str_eq t auth_type)) ≡ true = rw (e, a) refl in
          let z : false ≡ true = sym e ∙ rw (i, stop) at h in ground arith
    ]
  ]
