-- ===== src/Input/Consent.antt =====
-- daemon/fedoralink/plugins/remote_input.py: the session that a pointer call is made in.
pub mod Granted
use mathlib.Core.Path.{subst}
use mathlib.Core.Option.{some-injective}
use fedoralink.Prelude.{
  ℕ, ◌≡◌, ◌⊎◌, inl, inr, refl, sym, ◌∙◌, ap, String, Bool, true, false, not, Option, none, some,
  List, [], ◌∷◌, ◌++◌, str_eq, ◌==◌, ◌&&◌, ◌||◌, arith, Bool-cases, if◌then◌else◌, is_some, ==_iff,
}
use fedoralink.Json.{Json, Fields, get, truthy, as_str}
use fedoralink.Framing.Codec.{All}
use fedoralink.Input.{
  Request, create_session, select_devices, start_session, Act, call, motion, button, axis, ready,
  escaped, unsubscribe, close, Input, fresh_input, Step, number, Button, unhashable, unknown,
  event_code, button_code, notify, moved, on_motion, pressed, on_button, on_scroll, or_zero,
  call_with_response, ensure_session, of_kind, in_session, on_packet, fail, created, answered, find,
  remove, handled, on_response, on_call_done, on_disconnected, unsubscribed, closed, close_session,
  start, stop, Event, started, arrived, responded, called, disconnected, stopped, step, run,
}

-- a call that moves the pointer is made in this session
abbrev pub UsesOnly : Option String → Act → Type 0
UsesOnly o (call _ _) = Unit
UsesOnly o (motion s _ _) = o ≡ some s
UsesOnly o (button s _ _) = o ≡ some s
UsesOnly o (axis s _ _) = o ≡ some s
UsesOnly o ready = Unit
UsesOnly o escaped = Unit
UsesOnly o (unsubscribe _) = Unit
UsesOnly o (close _) = Unit

-- what a step leaves: the session of before or none, and pointer calls in the session of before
pub record Keeps (i : Input) (x : Step) : Type 0 where
  pub session_kept : (x.1.session ≡ i.session) ⊎ (x.1.session ≡ none)
  pub uses : All (UsesOnly i.session) x.0

unchanged : (i : Input) → Keeps i ([], i)
unchanged i = record { session_kept = inl refl; uses = tt }

notify-Keeps :
    (accepted : Bool) (act : Act) (i : Input)
    → UsesOnly i.session act
    → Keeps i (notify accepted act i)
unfolding notify
notify-Keeps accepted act i u = elim (Bool-cases (i.has_bus && is_some i.session)) [
  | inl e ↦ rw e (go accepted)
  | inr e ↦ rw e (unchanged i)
]
  where
    go : (a : Bool) → Keeps i (if a then (act ∷ [], i) else ([], record i { session = none }))
    go true = record { session_kept = inl refl; uses = (u, tt) }
    go false = record { session_kept = inr refl; uses = tt }

of_kind-Keeps :
    (accepted : Bool) (session : String) (body : Fields) (kind : Option String) (i : Input)
    → i.session ≡ some session
    → Keeps i (of_kind accepted session body kind i)
unfolding on_motion on_button on_scroll
of_kind-Keeps accepted session body none i s = unchanged i
of_kind-Keeps accepted session body (some kind) i s = elim (Bool-cases (str_eq kind "motion")) [
  | inl a ↦ rw a (move (number (get "dx" body)) (number (get "dy" body)))
  | inr a ↦ elim (Bool-cases (str_eq kind "button")) [
    | inl b ↦ rw (a, b) (press (button_code (get "button" body)))
    | inr b ↦ elim (Bool-cases (str_eq kind "scroll")) [
      | inl c ↦
          rw (a, b, c)
            (elim (Bool-cases (truthy dx || truthy dy)) [
              | inl d ↦ rw d (notify-Keeps accepted (axis session dx dy) i s)
              | inr d ↦ rw d (unchanged i)
            ])
      | inr c ↦ rw (a, b, c) (unchanged i)
    ]
  ]
]
  where
    dx : Json
    dx = or_zero (number (get "dx" body))

    dy : Json
    dy = or_zero (number (get "dy" body))

    move : (x y : Option Json) → Keeps i (moved accepted session x y i)
    move none y = unchanged i
    move (some x) none = unchanged i
    move (some x) (some y) = notify-Keeps accepted (motion session x y) i s

    press : (b : Button) → Keeps i (pressed accepted session (truthy (get "pressed" body)) b i)
    press unhashable = record { session_kept = inl refl; uses = (tt, tt) }
    press unknown = unchanged i
    press (event_code n) =
        notify-Keeps accepted (button session n (truthy (get "pressed" body))) i s

ensure-Keeps : (i : Input) → Keeps i (ensure_session i)
unfolding ensure_session call_with_response
ensure-Keeps i = elim (Bool-cases (not i.has_bus || (i.starting || i.refused))) [
  | inl e ↦ rw e (unchanged i)
  | inr e ↦ rw e (record { session_kept = inl refl; uses = (tt, tt) })
]

pub on_packet-Keeps :
    (enabled accepted : Bool) (body : Fields) (i : Input)
    → Keeps i (on_packet enabled accepted body i)
unfolding on_packet
on_packet-Keeps false accepted body i = unchanged i
on_packet-Keeps true accepted body i = go i.session refl
  where
    go : (o : Option String) → i.session ≡ o → Keeps i (in_session accepted body o i)
    go none e = ensure-Keeps i
    go (some session) e = of_kind-Keeps accepted session body (as_str (get "kind" body)) i e

pub closing-Uses :
    (o : Option String) (b : Bool) (subs : List (ℕ × Request)) (s : Option String)
    → All (UsesOnly o) (unsubscribed b subs ++ closed b s)
closing-Uses o b [] none = tt
closing-Uses o false [] (some s) = tt
closing-Uses o true [] (some s) = (tt, tt)
closing-Uses o false (x ∷ subs) none = tt
closing-Uses o false (x ∷ subs) (some s) = tt
closing-Uses o true ((n, r) ∷ subs) s = (tt, closing-Uses o true subs s)
