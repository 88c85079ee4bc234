-- ===== src/Daemon/Ending.antt =====
-- What is left of a peer that is dropped, and what an answered question or challenge leaves.
use fedoralink.Prelude.{
  ℕ, ◌≡◌, inl, inr, refl, sym, ◌∙◌, ap, String, Bool, true, false, Option, none, some, List, [],
  eq_iff, eq_refl, arith, Bool-cases, Option-cases,
}
use fedoralink.Json.{Json, str, Fields, end, field}
use fedoralink.Auth.{Primitives, verify}
use fedoralink.Devices.{DeviceStore, secret_for, trust}
use fedoralink.Devices.Trust.{secret_for-trust}
use fedoralink.Notification.{Notifications, cancel_ask, clear, close_local}
use fedoralink.Upgrade.{idle_tcp, stop, start, new_offer}
use fedoralink.Plugins.Clipboard
use fedoralink.Daemon.{
  Daemon, World, state_changed, emit, send, tcp_stop, reset, plugins_disconnected, on_disconnected,
  disconnect, drop_connection, no_peer, auth_type, set_authenticated, offer_lan_upgrade, offer_to,
  offer_on,
}
use fedoralink.Daemon.Gatekeeper.{
  send_auth, refuse, succeed, saved, approve, is_approval, why_not, enrollment_answered, verified,
  check_mac, check_response,
}
use fedoralink.Daemon.Authentication.{send_keeps, drop-authenticated, refuse-authenticated}

-- Nothing of the peer is left.
pub record IsBlank (d : Daemon) : Type 0 where
  pub not_connected : d.connected ≡ false
  pub not_authenticated : d.authenticated ≡ false
  pub no_link : d.rfcomm ≡ false
  pub no_lan : d.tcp ≡ idle_tcp
  pub no_gate : d.gate ≡ no_peer
  pub no_clipboard : d.clipboard ≡ none
  pub no_mirrors : d.notes.remote_to_local ≡ []

cancel_ask-remote :
    (b : Bool) (o : Option ℕ) (n : Notifications)
    → (cancel_ask b o n).remote_to_local ≡ n.remote_to_local
unfolding cancel_ask close_local
cancel_ask-remote b none n = refl
cancel_ask-remote b (some id) n = ground arith

clear-remote : (closes : ℕ → Bool) (n : Notifications) → (clear closes n).remote_to_local ≡ []
unfolding clear
clear-remote closes n = refl

-- A peer that is dropped while its Bluetooth link is up leaves nothing behind: no link, no LAN
-- link, offer or handshake, no authentication, no challenge, secret or question of the gate, no
-- clipboard, and no notification in the map from the phone's.
pub drop_connection-IsBlank :
    (w : World) (d : Daemon) → d.rfcomm ≡ true → IsBlank (drop_connection w d)
unfolding drop_connection disconnect on_disconnected plugins_disconnected tcp_stop emit reset stop
    Clipboard.on_disconnected
drop_connection-IsBlank w d e = record {
  not_connected = rw e (ground arith);
  not_authenticated = drop-authenticated w d;
  no_link = rw e (ground arith);
  no_lan = rw e (ground arith);
  no_gate = rw e (ground arith);
  no_clipboard = rw e refl;
  no_mirrors = rw e (cancel_ask-remote _ _ _ ∙ clear-remote _ _);
}

tcp_stop_keeps : (d : Daemon) → ((tcp_stop d).gate ≡ d.gate) × ((tcp_stop d).store ≡ d.store)
unfolding tcp_stop emit
tcp_stop_keeps d = ground arith

send_keeps_store : (t : String) (body : Fields) (d : Daemon) → (send t body d).1.store ≡ d.store
unfolding send emit
send_keeps_store t body d = ground arith

module _ (prim : Primitives) where
  offer_on_keeps :
      (w : World) (id : String) (o : Option ℕ) (d : Daemon)
      → ((offer_on prim w id o d).gate ≡ d.gate) × ((offer_on prim w id o d).store ≡ d.store)
  unfolding send emit tcp_stop new_offer
  offer_on_keeps w id none d = (refl, refl)
  offer_on_keeps w id (some port) d = ground arith

  offer_to_keeps :
      (w : World) (o : Option String) (d : Daemon)
      → ((offer_to prim w o d).gate ≡ d.gate) × ((offer_to prim w o d).store ≡ d.store)
  offer_to_keeps w none d = (refl, refl)
  offer_to_keeps w (some id) d =
      offer_on_keeps w id (start w.bound d.tcp).0 (record d { tcp = (start w.bound d.tcp).1 })

  offer_keeps :
      (w : World) (d : Daemon)
      → ((offer_lan_upgrade prim w d).gate ≡ d.gate)
        × ((offer_lan_upgrade prim w d).store ≡ d.store)
  unfolding offer_lan_upgrade
  offer_keeps w d = let k = offer_to_keeps w d.peer_device_id d in ground arith

  set_authenticated_keeps :
      (w : World) (d : Daemon)
      → ((set_authenticated prim w d).gate ≡ d.gate)
        × ((set_authenticated prim w d).store ≡ d.store)
  unfolding set_authenticated emit
  set_authenticated_keeps w d = elim (Bool-cases d.authenticated) [
    | inl e ↦ simp e (refl, refl)
    | inr e ↦ simp e (
        offer_keeps w (
          emit state_changed (record d { authenticated = true; session_was_authenticated = true })))
  ]

  module _ (digits : List ℕ → String) where
    succeed_keeps :
        (w : World) (d : Daemon)
        → ((succeed prim digits w d).gate ≡ d.gate) × ((succeed prim digits w d).store ≡ d.store)
    unfolding succeed send_auth
    succeed_keeps w d =
        let sent = (send auth_type (field "stage" (str "ok") end) d).1 in
        let (g, s) = set_authenticated_keeps w sent in
        let (_, _, h) = send_keeps auth_type (field "stage" (str "ok") end) d in
        (g ∙ h, s ∙ send_keeps_store auth_type (field "stage" (str "ok") end) d)

    refuse-our_nonce :
        (w : World) (reason : String) (d : Daemon)
        → d.gate.our_nonce ≡ none
        → (refuse w reason d).gate.our_nonce ≡ none
    unfolding refuse send_auth drop_connection disconnect on_disconnected plugins_disconnected emit
        reset
    refuse-our_nonce w reason d e =
        let sent =
          (send auth_type (field "stage" (str "fail") (field "reason" (str reason) end)) d).1 in
        let (_, r, h) =
          send_keeps auth_type (field "stage" (str "fail") (field "reason" (str reason) end)) d in
        elim (Bool-cases sent.rfcomm) [
          | inl q ↦ rw q refl
          | inr q ↦ rw q (ap (λ g. g.our_nonce) h ∙ e)
        ]

    verified-our_nonce :
        (w : World) (o : Option Bool) (d : Daemon)
        → d.gate.our_nonce ≡ none
        → (verified prim digits w o d).gate.our_nonce ≡ none
    unfolding emit
    verified-our_nonce w none d e = e
    verified-our_nonce w (some true) d e = ap (λ g. g.our_nonce) (succeed_keeps w d).0 ∙ e
    verified-our_nonce w (some false) d e =
        refuse-our_nonce w "challenge response did not verify" d e

    check_mac-our_nonce :
        (w : World) (mac : Json) (n p : Option String) (d : Daemon)
        → d.gate.our_nonce ≡ none
        → (check_mac prim digits w mac n p d).gate.our_nonce ≡ none
    check_mac-our_nonce w mac none p d e = refuse-our_nonce w "unexpected auth response" d e
    check_mac-our_nonce w mac (some n) none d e = refuse-our_nonce w "unexpected auth response" d e
    check_mac-our_nonce w mac (some n) (some p) d e = elim (Option-cases (secret_for p d.store)) [
      | inl s ↦ rw s (refuse-our_nonce w "challenge response did not verify" d e)
      | inr (k, s) ↦ rw s (verified-our_nonce w (verify prim k n mac) d e)
    ]

    -- One challenge, one answer: whatever the answer, and however it is judged, its nonce is no
    -- longer outstanding behind it.
    pub check_response-our_nonce :
        (w : World) (mac : Json) (d : Daemon)
        → (check_response prim digits w mac d).gate.our_nonce ≡ none
    unfolding check_response
    check_response-our_nonce w mac d =
        check_mac-our_nonce w mac d.gate.our_nonce d.gate.peer_id
          (record d { gate = record d.gate { our_nonce = none } }) refl

    saved_keeps :
        (w : World) (o : Bool × DeviceStore) (d : Daemon) → (saved prim digits w o d).store ≡ o.1
    unfolding emit
    saved_keeps w (true, store) d = (succeed_keeps w (record d { store = store })).1
    saved_keeps w (false, store) d = refl

    approve-authenticated :
        (w : World) (p k : Option String) (d : Daemon)
        → d.authenticated ≡ false
        → (approve prim digits w p k d).authenticated ≡ true
        → (x : String × String) × (p ≡ some x.0)
          × (k ≡ some x.1)
          × (secret_for x.0 (approve prim digits w p k d).store ≡ some x.1)
    approve-authenticated w none k d e h = let z : false ≡ true = sym e ∙ h in ground arith
    approve-authenticated w (some p) none d e h = let z : false ≡ true = sym e ∙ h in ground arith
    approve-authenticated w (some p) (some k) d e h = (
      (p, k),
      refl,
      refl,
      ap (secret_for p) (saved_keeps w (trust w.disk p d.gate.peer_name k d.store) d)
          ∙ secret_for-trust w.disk p d.gate.peer_name k p d.store
          ∙ rw (eq_refl p) refl,
    )

    -- The answer to the question makes an unauthenticated peer authenticated only where the user
    -- approved it, and then the secret that was offered to this peer is the one stored for it.
    pub enrollment_answered-authenticated :
        (w : World) (action : Option String) (d : Daemon)
        → d.authenticated ≡ false
        → (enrollment_answered prim digits w action d).authenticated ≡ true
        → (x : String × String) × (action ≡ some "fedoralink-approve")
          × (d.gate.peer_id ≡ some x.0)
          × (d.gate.pending_secret ≡ some x.1)
          × (secret_for x.0 (enrollment_answered prim digits w action d).store ≡ some x.1)
    unfolding enrollment_answered
    enrollment_answered-authenticated w action d e h =
        elim (Bool-cases (is_approval prim digits action)) [
          | inl a ↦
              let (x, p, k, s) =
                approve-authenticated w d.gate.peer_id d.gate.pending_secret answered e
                  (rw a at h) in
              (x, approved action a, p, k, rw a s)
          | inr a ↦
              let z : false ≡ true =
                sym (refuse-authenticated w (why_not prim digits action) answered) ∙ rw a at h in
              ground arith
        ]
      where
        answered : Daemon
        answered = record d { gate = record d.gate { prompt_id = none; pending_secret = none } }

        approved :
            (o : Option String) → is_approval prim digits o ≡ true → o ≡ some "fedoralink-approve"
        approved none q = ground arith
        approved (some action) q = ap some ((eq_iff action "fedoralink-approve").0 q)
