-- ===== src/Plugins/Presence.antt =====
-- daemon/fedoralink/plugins/presence.py: the lock of the desktop when the phone leaves.
use fedoralink.Prelude.{
  ℕ, suc, ◌≡◌, refl, sym, ◌∙◌, Bool, true, false, Option, none, some, List, [], ◌∷◌, inl, inr,
  if◌then◌else◌, arith, Bool-cases,
}
use fedoralink.Json.{Json, int, Fields, get, truthy}

-- `has_bus` is `_bus is not None`, and `grace` is the time of the timer that `_grace_source` names.
pub record Presence : Type 0 where
  pub has_bus : Bool
  pub grace : Option ℕ

-- `_cancel_grace`
unfoldable pub cancel_grace : Presence → Presence
cancel_grace p = record p { grace = none }

-- `_lock`: whether Lock is called
unfoldable pub lock : Presence → Bool
lock p = p.has_bus

unfoldable pub start : Presence → Presence
start p = record p { has_bus = true }

unfoldable pub stop : Presence → Presence
stop p = record p { has_bus = false; grace = none }

-- `on_connected`
unfoldable pub on_connected : Presence → Presence
unfolding cancel_grace
on_connected p = cancel_grace p

abbrev arm : Json → Presence → Bool × Presence
arm (int (suc n)) p = (false, record p { grace = some (suc n) })
arm _ p = (lock p, p)

-- `on_disconnected`
unfoldable pub on_disconnected : Fields → Bool → Presence → Bool × Presence
unfolding cancel_grace lock
on_disconnected config session_was_authenticated p =
    if truthy (get "lock_on_disconnect" config)
    then (if session_was_authenticated
        then arm (get "lock_on_disconnect_grace_seconds" config) (cancel_grace p)
        else (false, p))
    else (false, p)

-- `_grace_elapsed`
unfoldable pub grace_elapsed : Bool → Presence → Bool × Presence
unfolding lock
grace_elapsed connected p =
    let p' = record p { grace = none } in if connected then (false, p') else (lock p', p')

-- The desktop as the plugin sees it: whether a phone is connected, and whether the last session
-- authenticated.
pub record Desk : Type 0 where
  pub connected : Bool
  pub trusted : Bool
  pub presence : Presence

-- what happens to it: a phone connects, authenticates or leaves, and the timer's time is over
pub data Event : Type 0 where
  came was_trusted left time_over : Event

abbrev fired : Option ℕ → Desk → Bool × Desk
fired none d = (false, d)
fired (some seconds) d =
    let (locks, p) = grace_elapsed d.connected d.presence in (locks, record d { presence = p })

-- an event, and whether it locks the desktop; a timer that was cancelled does not fire
unfoldable pub step : Fields → Event → Desk → Bool × Desk
unfolding on_connected on_disconnected grace_elapsed
step config came d =
    (false, record { connected = true; trusted = false; presence = on_connected d.presence })
step config was_trusted d = (false, record d { trusted = true })
step config left d =
    let (locks, p) = on_disconnected config d.trusted d.presence in
    (locks, record d { connected = false; presence = p })
step config time_over d = fired d.presence.grace d

unfoldable pub run : Fields → List Event → Desk → Desk
run config [] d = d
run config (e ∷ es) d = run config es (step config e d).1

-- A timer is armed only while the phone is away, behind a session that authenticated, with the
-- setting on.
pub data IsGuarded (config : Fields) (d : Desk) : Type 0 where
  unarmed : d.presence.grace ≡ none → IsGuarded config d
  armed :
      d.connected ≡ false
      → d.trusted ≡ true
      → truthy (get "lock_on_disconnect" config) ≡ true
      → IsGuarded config d

-- what is asked of a state and of a lock
abbrev pub IsAway : Fields → Desk → Type 0
IsAway config d =
    (d.connected ≡ false) × (d.trusted ≡ true) × (truthy (get "lock_on_disconnect" config) ≡ true)

untrusted :
    (config : Fields) (b : Bool) (p : Presence)
    → b ≡ false
    → on_disconnected config b p ≡ (false, p)
unfolding on_disconnected
untrusted config b p e = elim (Bool-cases (truthy (get "lock_on_disconnect" config))) [
  | inl s ↦ rw (s, e) refl
  | inr s ↦ rw s refl
]

left-IsGuarded :
    (config : Fields) (d : Desk)
    → IsGuarded config d
    → IsGuarded config (step config left d).1
      × ((step config left d).0 ≡ true → IsAway config (step config left d).1)
unfolding step
left-IsGuarded config d g = elim (Bool-cases (truthy (get "lock_on_disconnect" config))) [
  | inr s ↦ rw s (kept g, λ h. ground arith)
  | inl s ↦ elim (Bool-cases d.trusted) [
    | inl t ↦ (armed refl t s, λ h. (refl, t, s))
    | inr t ↦ rw (untrusted config d.trusted d.presence t) (kept g, λ h. ground arith)
  ]
]
  where
    kept : IsGuarded config d → IsGuarded config (record d { connected = false })
    kept (unarmed n) = unarmed n
    kept (armed c t s) = armed refl t s

fired-IsGuarded :
    (config : Fields) (o : Option ℕ) (d : Desk)
    → d.presence.grace ≡ o
    → IsGuarded config d
    → IsGuarded config (fired o d).1 × ((fired o d).0 ≡ true → IsAway config (fired o d).1)
unfolding grace_elapsed
fired-IsGuarded config none d n g = (g, λ h. ground arith)
fired-IsGuarded config (some seconds) d n (unarmed m) =
    let z : none ≡ some seconds = sym m ∙ n in ground arith
fired-IsGuarded config (some seconds) d n (armed c t s) = rw c (unarmed refl, λ h. (refl, t, s))

step-IsGuarded :
    (config : Fields) (e : Event) (d : Desk)
    → IsGuarded config d
    → IsGuarded config (step config e d).1
      × ((step config e d).0 ≡ true → IsAway config (step config e d).1)
unfolding step on_connected cancel_grace
step-IsGuarded config came d g = (unarmed refl, λ h. ground arith)
step-IsGuarded config was_trusted d (unarmed n) = (unarmed n, λ h. ground arith)
step-IsGuarded config was_trusted d (armed c t s) = (armed c refl s, λ h. ground arith)
step-IsGuarded config left d g = left-IsGuarded config d g
step-IsGuarded config time_over d g = fired-IsGuarded config d.presence.grace d refl g

locked-IsAway :
    (config : Fields) (es : List Event) (e : Event) (d : Desk)
    → IsGuarded config d
    → (step config e (run config es d)).0 ≡ true
    → IsAway config (step config e (run config es d)).1
unfolding run
locked-IsAway config [] e d g h = (step-IsGuarded config e d g).1 h
locked-IsAway config (first ∷ es) e d g h =
    locked-IsAway config es e (step config first d).1 (step-IsGuarded config first d g).0 h

-- The desktop is locked only while the phone is away, behind a session that authenticated, and with
-- the setting on: whatever came before, in a run that began with no timer armed.
pub step-IsAway :
    (config : Fields) (es : List Event) (e : Event) (d : Desk)
    → d.presence.grace ≡ none
    → (step config e (run config es d)).0 ≡ true
    → IsAway config (step config e (run config es d)).1
step-IsAway config es e d n h = locked-IsAway config es e d (unarmed n) h
