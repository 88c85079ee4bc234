-- ===== src/Daemon/Forget.antt =====
-- daemon/fedoralink/daemon.py: `forget_devices`.
pub mod Quiet
use fedoralink.Prelude.{
  ℕ, ◌+◌, ◌≡◌, refl, ap, ◌∙◌, String, Bool, true, false, none, List, [], ◌∷◌, inl, inr, arith,
  Bool-cases, if◌then◌else◌,
}
use fedoralink.Prelude.Assoc.{member}
use fedoralink.Json.{Fields, end, field, contains, as_fields}
use fedoralink.Devices.{
  DeviceStore, Revoked, unknown, gone, not_saved, save, revoke, secret_for, entry_secret,
  known_devices,
}
use fedoralink.Devices.Trust.{secret_for-revoke, get_absent}
use fedoralink.Notification.{same_key}
use fedoralink.Daemon.{
  Daemon, World, escaped, emit, drop_connection, disconnect, on_disconnected, plugins_disconnected,
  reset, tcp_stop,
}

-- The devices that were revoked, and the store; `stopped` is the OSError of a write.
pub record Forgotten : Type 0 where
  pub count : ℕ
  pub stopped : Bool
  pub left_over : DeviceStore

abbrev pub counted : Forgotten → Forgotten
counted f = record f { count = f.count + 1 }

abbrev pub forget_next : (DeviceStore → Forgotten) → Revoked × DeviceStore → Forgotten
forget_next k (unknown, s) = k s
forget_next k (gone, s) = counted (k s)
forget_next k (not_saved, s) = record { count = 0; stopped = true; left_over = s }

-- the loop
unfoldable pub forget_all : Bool → List String → DeviceStore → Forgotten
forget_all disk [] s = record { count = 0; stopped = false; left_over = s }
forget_all disk (id ∷ ids) s = forget_next (forget_all disk ids) (revoke disk id s)

-- `forget_devices`: the count that it returns, where no write failed
unfoldable pub forget_devices : World → Daemon → ℕ × Daemon
unfolding emit forget_all
forget_devices w d =
    let f = forget_all w.disk (known_devices d.store.known) d.store in
    let d' = record d { store = f.left_over } in
    (
      f.count,
      if f.stopped then emit escaped d' else if d.connected then drop_connection w d' else d',
    )

disconnect-store : (w : World) (d : Daemon) → (drop_connection w d).store ≡ d.store
unfolding drop_connection disconnect on_disconnected plugins_disconnected tcp_stop emit reset
disconnect-store w d = ground arith

forgotten :
    (w : World) (d : Daemon)
    → (forget_devices w d).1.store
      ≡ (forget_all w.disk (known_devices d.store.known) d.store).left_over
unfolding forget_devices emit
forgotten w d =
    let f = forget_all w.disk (known_devices d.store.known) d.store in
    elim (Bool-cases f.stopped) [
      | inl s ↦ rw s refl
      | inr s ↦ elim (Bool-cases d.connected) [
        | inl c ↦
            rw (s, c) (disconnect-store w (record d { connected = true; store = f.left_over }))
        | inr c ↦ rw (s, c) refl
      ]
    ]

forget_next-store :
    (k : DeviceStore → Forgotten) (r : Revoked × DeviceStore)
    → (r.0 ≡ not_saved → r.1 ≡ (k r.1).left_over)
    → (forget_next k r).left_over ≡ (k r.1).left_over
forget_next-store k (unknown, s) e = refl
forget_next-store k (gone, s) e = refl
forget_next-store k (not_saved, s) e = e refl

never_fails :
    (id : String) (s t : DeviceStore) → (revoke true id s).0 ≡ not_saved → (revoke true id s).1 ≡ t
unfolding revoke save
never_fails id s t e = elim (Bool-cases (contains id s.known)) [
  | inl h ↦ let z : gone ≡ not_saved = rw h at e in ground arith
  | inr h ↦ let z : unknown ≡ not_saved = rw h at e in ground arith
]

forget_all-secret :
    (ids : List String) (j : String) (s : DeviceStore)
    → secret_for j (forget_all true ids s).left_over
      ≡ (if member same_key j ids then none else secret_for j s)
unfolding forget_all member
forget_all-secret [] j s = refl
forget_all-secret (id ∷ ids) j s =
    ap (secret_for j)
      (forget_next-store (forget_all true ids) (revoke true id s) (never_fails id s _))
    ∙ forget_all-secret ids j (revoke true id s).1
    ∙ rw (secret_for-revoke true id j s) (ground arith)

member-known_devices :
    (j : String) (fs : Fields) → member same_key j (known_devices fs) ≡ contains j fs
unfolding member known_devices contains
member-known_devices j end = refl
member-known_devices j (field k v rest) = rw (member-known_devices j rest) refl

absent :
    (j : String) (s : DeviceStore) → (if contains j s.known then none else secret_for j s) ≡ none
unfolding secret_for entry_secret as_fields
absent j s = elim (Bool-cases (contains j s.known)) [
  | inl c ↦ rw c refl
  | inr c ↦ rw (c, get_absent j s.known c) refl
]

-- Once the devices have been forgotten, where no write failed, no device has a secret.
pub secret_for-forget_devices :
    (w : World) (d : Daemon) (j : String)
    → w.disk ≡ true
    → secret_for j (forget_devices w d).1.store ≡ none
secret_for-forget_devices w d j e =
    ap (secret_for j) (forgotten w d)
    ∙ rw
        (
          e,
          forget_all-secret (known_devices d.store.known) j d.store,
          member-known_devices j d.store.known,
        )
        (absent j d.store)
