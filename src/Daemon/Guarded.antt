-- ===== src/Daemon/Guarded.antt =====
-- daemon/fedoralink/daemon.py: the packets in answer to a peer that is not authenticated.
use fedoralink.Prelude.{
  ℕ, ◌≡◌, inl, inr, refl, sym, ◌∙◌, ap, String, Bool, true, false, not, ◌&&◌, ◌||◌, Option, none,
  some, List, [], ◌∷◌, ◌++◌, str_eq, arith, Bool-cases, if◌then◌else◌, is_some,
}
use fedoralink.Notification.{enrollment}
use fedoralink.Notification
use fedoralink.Json.{Json, str, Fields, end, field, get, as_str, as_text}
use fedoralink.Auth.{Primitives, verify, fingerprint, new_token, respond}
use fedoralink.Devices.{secret_for}
use fedoralink.Upgrade.{start, new_offer}
use fedoralink.Daemon.{
  Daemon, World, Effect, packet, state_changed, locked, escaped, handed, wrote, battery_low,
  is_pre_auth, emit, send, drop_connection, set_authenticated, offer_on, offer_to,
  offer_lan_upgrade, tcp_stop, auth_type, identity_type,
}
use fedoralink.Daemon.Packets.{packets, drop_quiet}
use fedoralink.Daemon.Gatekeeper.{
  send_auth, refuse, succeed, asked, enroll_with, start_enrollment, challenge, known_or_new,
  name_or_id, begin_with, begin, verified, check_secret, check_mac, check_response, send_mac,
  answer_with, answer_nonce, answer_challenge, stored_secret, at_stage, on_auth_packet,
}
use fedoralink.Daemon.Dispatch.{on_identity, on_packet, route, named, is_new_enough}

-- the two types of packets that come before the authentication
abbrev pub is_opening : String → Bool
is_opening t = str_eq t "fedoralink.identity" || str_eq t "fedoralink.auth"

-- what needs an authenticated peer: packets that go out of other types than these two, and any packet
-- that is handed to a plugin
unfoldable pub restricted : List Effect → List Effect
restricted [] = []
restricted (packet lan t body ∷ es) =
    let rest = restricted es in if is_opening t then rest else packet lan t body ∷ rest
restricted (state_changed ∷ es) = restricted es
restricted (locked ∷ es) = restricted es
restricted (escaped ∷ es) = restricted es
restricted (handed t body ∷ es) = handed t body ∷ restricted es
restricted (wrote w ∷ es) = restricted es
restricted (battery_low n ∷ es) = restricted es

pub of_packets : (es : List Effect) → restricted (packets es) ≡ restricted es
unfolding restricted packets
of_packets [] = refl
of_packets (packet lan t body ∷ es) = elim (Bool-cases (is_opening t)) [
  | inl e ↦ rw e (of_packets es)
  | inr e ↦ rw e (ap (λ r. packet lan t body ∷ r) (of_packets es))
]
of_packets (state_changed ∷ es) = of_packets es
of_packets (locked ∷ es) = of_packets es
of_packets (escaped ∷ es) = of_packets es
of_packets (handed t body ∷ es) = ap (λ r. handed t body ∷ r) (of_packets es)
of_packets (wrote w ∷ es) = of_packets es
of_packets (battery_low n ∷ es) = of_packets es

pub hushed : (xs es : List Effect) → restricted es ≡ [] → restricted (xs ++ es) ≡ restricted xs
unfolding restricted
hushed [] es q = q
hushed (packet lan t body ∷ xs) es q = elim (Bool-cases (is_opening t)) [
  | inl e ↦ rw e (hushed xs es q)
  | inr e ↦ rw e (ap (λ r. packet lan t body ∷ r) (hushed xs es q))
]
hushed (state_changed ∷ xs) es q = hushed xs es q
hushed (locked ∷ xs) es q = hushed xs es q
hushed (escaped ∷ xs) es q = hushed xs es q
hushed (handed t body ∷ xs) es q = ap (λ r. handed t body ∷ r) (hushed xs es q)
hushed (wrote w ∷ xs) es q = hushed xs es q
hushed (battery_low n ∷ xs) es q = hushed xs es q

pub drop_hushed : (w : World) (d : Daemon) → restricted (drop_connection w d).out ≡ restricted d.out
drop_hushed w d =
    sym (of_packets (drop_connection w d).out) ∙ ap restricted (drop_quiet w d) ∙ of_packets d.out

pub escaped_hushed : (d : Daemon) → restricted (emit escaped d).out ≡ restricted d.out
unfolding emit restricted
escaped_hushed d = hushed d.out (escaped ∷ []) refl

-- a packet of one of the two types
pub send_hushed :
    (t : String) (body : Fields) (d : Daemon)
    → is_opening t ≡ true
    → restricted (send t body d).1.out ≡ restricted d.out
unfolding send emit restricted is_pre_auth
send_hushed t body d p = go d.authenticated (is_some d.tcp.link) d.rfcomm
  where
    one : (lan : Bool) → restricted (d.out ++ packet lan t body ∷ []) ≡ restricted d.out
    one lan = hushed d.out (packet lan t body ∷ []) (rw p refl)

    sent : Bool → Bool → Bool → Bool × Daemon
    sent a l r =
        if not a && not (is_opening t)
        then (false, d)
        else if l
        then (true, emit (packet true t body) d)
        else if r
        then (true, emit (packet false t body) d)
        else (false, d)

    over : (l r : Bool) → restricted (sent true l r).1.out ≡ restricted d.out
    over true r = one true
    over false true = one false
    over false false = refl

    go : (a l r : Bool) → restricted (sent a l r).1.out ≡ restricted d.out
    go true l r = over l r
    go false l r = rw p (over l r)

-- any packet, while nobody is authenticated
pub restricted-send :
    (t : String) (body : Fields) (d : Daemon)
    → d.authenticated ≡ false
    → restricted (send t body d).1.out ≡ restricted d.out
unfolding send is_pre_auth
restricted-send t body d a = elim (Bool-cases (is_opening t)) [
  | inl p ↦ send_hushed t body d p
  | inr p ↦ stopped (simp (a, p) refl)
]
  where
    stopped : (send t body d).1 ≡ d → restricted (send t body d).1.out ≡ restricted d.out
    stopped e = ap (λ (x : Daemon). restricted x.out) e

send_auth_hushed :
    (stage : String) (body : Fields) (d : Daemon)
    → restricted (send_auth stage body d).out ≡ restricted d.out
unfolding send_auth is_pre_auth
send_auth_hushed stage body d = send_hushed auth_type (field "stage" (str stage) body) d refl

pub refuse_hushed :
    (w : World) (reason : String) (d : Daemon)
    → restricted (refuse w reason d).out ≡ restricted d.out
unfolding refuse
refuse_hushed w reason d =
    drop_hushed w (send_auth "fail" (field "reason" (str reason) end) d)
    ∙ send_auth_hushed "fail" (field "reason" (str reason) end) d

offer_on-authenticated :
    (prim : Primitives) (w : World) (id : String) (o : Option ℕ) (d : Daemon)
    → (offer_on prim w id o d).authenticated ≡ d.authenticated
unfolding send emit tcp_stop new_offer
offer_on-authenticated prim w id none d = refl
offer_on-authenticated prim w id (some port) d = ground arith

offer_to-authenticated :
    (prim : Primitives) (w : World) (o : Option String) (d : Daemon)
    → (offer_to prim w o d).authenticated ≡ d.authenticated
offer_to-authenticated prim w none d = refl
offer_to-authenticated prim w (some id) d =
    offer_on-authenticated prim w id (start w.bound d.tcp).0
      (record d { tcp = (start w.bound d.tcp).1 })

pub offer-authenticated :
    (prim : Primitives) (w : World) (d : Daemon)
    → (offer_lan_upgrade prim w d).authenticated ≡ d.authenticated
unfolding offer_lan_upgrade
offer-authenticated prim w d =
    let k = offer_to-authenticated prim w d.peer_device_id d in ground arith

pub succeed-authenticated :
    (prim : Primitives) (digits : List ℕ → String) (w : World) (d : Daemon)
    → (succeed prim digits w d).authenticated ≡ true
unfolding succeed set_authenticated emit
succeed-authenticated prim digits w d = go (send_auth "ok" end d)
  where
    go : (x : Daemon) → (set_authenticated prim w x).authenticated ≡ true
    go x = elim (Bool-cases x.authenticated) [
      | inl e ↦ simp e refl
      | inr e ↦ simp e (
          offer-authenticated prim w (
            emit state_changed
              (record x { authenticated = true; session_was_authenticated = true })))
    ]

module _ (prim : Primitives) (digits : List ℕ → String) where
  asked_hushed :
      (w : World) (o : Option ℕ) (d : Daemon)
      → restricted (asked prim digits w o d).out ≡ restricted d.out
  asked_hushed w none d =
      refuse_hushed w "could not ask the user to approve the device"
        (record d { gate = record d.gate { prompt_id = none } })
  asked_hushed w (some id) d = refl

  enroll_hushed :
      (w : World) (secret : String) (o : Option (List ℕ)) (d : Daemon)
      → restricted (enroll_with prim digits w secret o d).out ≡ restricted d.out
  enroll_hushed w secret none d = escaped_hushed d
  enroll_hushed w secret (some code) d =
      let d1 =
        send_auth "enroll" (field "secret" (str secret) (field "code" (str (digits code)) end)) d in
      asked_hushed w (Notification.ask w.posted enrollment d1.notes).0
        (record d1 { notes = (Notification.ask w.posted enrollment d1.notes).1 })
      ∙ send_auth_hushed "enroll"
          (field "secret" (str secret) (field "code" (str (digits code)) end)) d

  known_hushed :
      (w : World) (o : Option String) (d : Daemon)
      → restricted (known_or_new prim digits w o d).out ≡ restricted d.out
  unfolding start_enrollment challenge
  known_hushed w none d =
      enroll_hushed w (new_token prim w.secret_bytes)
        (fingerprint prim (new_token prim w.secret_bytes))
        (record d {
          gate = record d.gate { pending_secret = some (new_token prim w.secret_bytes) };
        })
  known_hushed w (some secret) d =
      send_auth_hushed "challenge" (field "nonce" (str (new_token prim w.nonce_bytes)) end)
        (record d { gate = record d.gate { our_nonce = some (new_token prim w.nonce_bytes) } })

  begin_hushed :
      (w : World) (o : Option String) (name : String) (d : Daemon)
      → restricted (begin_with prim digits w o name d).out ≡ restricted d.out
  begin_hushed w none name d = refuse_hushed w "peer sent no deviceId" d
  begin_hushed w (some id) name d = known_hushed w (secret_for id d.store) (record d {
    gate = record d.gate { peer_id = some id; peer_name = name_or_id prim digits name id };
  })

  named_hushed : (o : Option String) (d : Daemon) → restricted (named o d).out ≡ restricted d.out
  unfolding emit restricted
  named_hushed none d = refl
  named_hushed (some name) d = hushed d.out (state_changed ∷ []) refl

  identity_hushed :
      (w : World) (body : Fields) (d : Daemon)
      → restricted (on_identity prim digits w body d).out ≡ restricted d.out
  unfolding on_identity begin
  identity_hushed w body d =
      let d1 = named (as_text (get "deviceName" body)) d in
      elim (Bool-cases (is_new_enough (get "protocolVersion" body))) [
        | inl v ↦ rw v (
            begin_hushed w (as_text (get "deviceId" body)) d1.device_name
              (record d1 { peer_device_id = as_str (get "deviceId" body) })
            ∙ named_hushed (as_text (get "deviceName" body)) d)
        | inr v ↦ rw v (drop_hushed w d1 ∙ named_hushed (as_text (get "deviceName" body)) d)
      ]

  mac_hushed :
      (o : Option String) (d : Daemon)
      → restricted (send_mac prim digits o d).out ≡ restricted d.out
  mac_hushed none d = refl
  mac_hushed (some mac) d = send_auth_hushed "response" (field "mac" (str mac) end) d

  nonce_hushed :
      (o : Option String) (d : Daemon)
      → restricted (answer_nonce prim digits o d).out ≡ restricted d.out
  nonce_hushed none d = refl
  nonce_hushed (some nonce) d =
      go (stored_secret prim digits d.gate.peer_id d.store) d.gate.pending_secret
    where
      go :
          (a b : Option String)
          → restricted (answer_with prim digits nonce a b d).out ≡ restricted d.out
      go (some s) b = mac_hushed (respond prim s nonce) d
      go none (some s) = mac_hushed (respond prim s nonce) d
      go none none = refl

  -- a step that authenticates the peer, or sends nothing but identity and auth
  abbrev Keeps : Daemon → Daemon → Type 0
  Keeps d d' = d'.authenticated ≡ false → restricted d'.out ≡ restricted d.out

  verified_hushed :
      (w : World) (o : Option Bool) (d : Daemon) → Keeps d (verified prim digits w o d)
  verified_hushed w none d e = escaped_hushed d
  verified_hushed w (some true) d e =
      let z : true ≡ false = sym (succeed-authenticated prim digits w d) ∙ e in ground arith
  verified_hushed w (some false) d e = refuse_hushed w "challenge response did not verify" d

  check_hushed :
      (w : World) (mac : Json) (n p : Option String) (d : Daemon)
      → Keeps d (check_mac prim digits w mac n p d)
  check_hushed w mac none p d e = refuse_hushed w "unexpected auth response" d
  check_hushed w mac (some n) none d e = refuse_hushed w "unexpected auth response" d
  check_hushed w mac (some n) (some p) d e = go (secret_for p d.store) e
    where
      go : (o : Option String) → Keeps d (check_secret prim digits w n mac o d)
      go none e = refuse_hushed w "challenge response did not verify" d
      go (some k) e = verified_hushed w (verify prim k n mac) d e

  stage_hushed :
      (w : World) (body : Fields) (o : Option String) (d : Daemon)
      → Keeps d (at_stage prim digits w body o d)
  unfolding check_response answer_challenge
  stage_hushed w body none d e = refl
  stage_hushed w body (some stage) d e = elim (Bool-cases (str_eq stage "response")) [
    | inl r ↦ rw r (
        check_hushed w (get "mac" body) d.gate.our_nonce d.gate.peer_id
          (record d { gate = record d.gate { our_nonce = none } }) (rw r at e))
    | inr r ↦ elim (Bool-cases (str_eq stage "challenge")) [
      | inl c ↦ rw (r, c) (nonce_hushed (as_text (get "nonce" body)) d)
      | inr c ↦ elim (Bool-cases (str_eq stage "fail")) [
        | inl f ↦ rw (r, c, f) (drop_hushed w d)
        | inr f ↦ rw (r, c, f) refl
      ]
    ]
  ]

  -- A packet of any kind from a peer that is not authenticated, and is not authenticated behind it
  -- either, makes the daemon send no packet but of the types identity and auth, and is handed to no
  -- plugin.
  pub on_packet-restricted :
      (w : World) (t : String) (body : Fields) (d : Daemon)
      → d.authenticated ≡ false
      → (on_packet prim digits w t body d).authenticated ≡ false
      → restricted (on_packet prim digits w t body d).out ≡ restricted d.out
  unfolding on_packet route on_auth_packet
  on_packet-restricted w t body d a e = elim (Bool-cases (str_eq t identity_type)) [
    | inl i ↦ rw i (identity_hushed w body d)
    | inr i ↦ elim (Bool-cases (str_eq t auth_type)) [
      | inl q ↦
          let pass : (not d.authenticated && not (str_eq t auth_type)) ≡ false = rw (a, q) refl in
          rw (i, pass, q) (stage_hushed w body (as_str (get "stage" body)) d (rw (i, pass, q) at e))
      | inr q ↦
          let stop : (not d.authenticated && not (str_eq t auth_type)) ≡ true = rw (a, q) refl in
          rw (i, stop) refl
    ]
  ]
