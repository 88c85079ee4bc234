-- ===== src/Input/Dialogs.antt =====
-- daemon/fedoralink/plugins/remote_input.py: the requests that wait for the portal.
use fedoralink.Prelude.{
  ℕ, ◌≤◌, ◌≡◌, ◌⊎◌, inl, inr, refl, sym, ◌∙◌, ap, String, Bool, true, false, not, Option, none,
  some, List, [], ◌∷◌, ◌++◌, str_eq, ◌==◌, ◌&&◌, ◌||◌, arith, Bool-cases, if◌then◌else◌, is_some,
  length,
}
use fedoralink.Json.{Json, Fields, get, truthy, as_str}
use fedoralink.Framing.Codec.{All}
use fedoralink.Input.{
  Request, create_session, select_devices, start_session, Act, motion, button, axis, Input,
  fresh_input, Step, number, Button, unhashable, unknown, event_code, button_code, notify, moved,
  on_motion, pressed, on_button, on_scroll, or_zero, call_with_response, ensure_session, of_kind,
  in_session, on_packet, fail, created, answered, find, remove, handled, on_response, on_call_done,
  on_disconnected, close_session, start, stop, Event, started, arrived, responded, called,
  disconnected, stopped, step, run,
}

-- one request waits for its answer
pub record Asking (i : Input) : Type 0 where
  pub in_progress : i.starting ≡ true
  pub no_session : i.session ≡ none
  id : ℕ
  request : Request
  only : i.subscriptions ≡ (id, request) ∷ []

abbrev pub AsksOnce : Input → Type 0
AsksOnce i = (i.subscriptions ≡ []) ⊎ Asking i

call-AsksOnce :
    (r : Request) (i : Input)
    → i.starting ≡ true
    → i.session ≡ none
    → i.subscriptions ≡ []
    → AsksOnce (call_with_response r i).1
unfolding call_with_response
call-AsksOnce r i s n e = inr (record {
  in_progress = s;
  no_session = n;
  id = i.next_id;
  request = r;
  only = ap (λ x. x ++ (i.next_id, r) ∷ []) e;
})

fail-AsksOnce : (code : ℕ) (i : Input) → i.subscriptions ≡ [] → AsksOnce (fail code i)
unfolding fail
fail-AsksOnce code i e = elim (Bool-cases (code == 1)) [
  | inl c ↦ rw c (inl e)
  | inr c ↦ rw c (inl e)
]

answered-AsksOnce :
    (code : ℕ) (handle : Option String) (r : Request) (i : Input)
    → i.starting ≡ true
    → i.session ≡ none
    → i.subscriptions ≡ []
    → AsksOnce (answered r code handle i).1
unfolding answered
answered-AsksOnce code handle create_session i s n e = elim (Bool-cases (code == 0)) [
  | inl c ↦ rw c (go handle)
  | inr c ↦ rw c (fail-AsksOnce code i e)
]
  where
    go : (o : Option String) → AsksOnce (created o code i).1
    go none = fail-AsksOnce code i e
    go (some h) = elim (Bool-cases (str_eq h "")) [
      | inl c ↦ rw c (fail-AsksOnce code i e)
      | inr c ↦ rw c (call-AsksOnce (select_devices h) i s n e)
    ]
answered-AsksOnce code handle (select_devices h) i s n e = elim (Bool-cases (code == 0)) [
  | inl c ↦ rw c (call-AsksOnce (start_session h) i s n e)
  | inr c ↦ rw c (fail-AsksOnce code i e)
]
answered-AsksOnce code handle (start_session h) i s n e = elim (Bool-cases (code == 0)) [
  | inl c ↦ rw c (inl e)
  | inr c ↦ rw c (fail-AsksOnce code (record i { starting = false }) e)
]

remove_only :
    (id n : ℕ) (r q : Request) → find id ((n, r) ∷ []) ≡ some q → remove id ((n, r) ∷ []) ≡ []
unfolding find remove
remove_only id n r q e = elim (Bool-cases (n == id)) [
  | inl c ↦ rw c refl
  | inr c ↦ (let z : none ≡ some q = rw c at e in ground arith)
]

-- A subscription that answers is the only one.
pub answering-Asking :
    (id : ℕ) (r : Request) (i : Input)
    → AsksOnce i
    → find id i.subscriptions ≡ some r
    → Asking i × (remove id i.subscriptions ≡ [])
unfolding find
answering-Asking id r i (inl e) f = let z : none ≡ some r = sym (ap (find id) e) ∙ f in ground arith
answering-Asking id r i (inr a) f =
    (a, ap (remove id) a.only ∙ remove_only id a.id a.request r (sym (ap (find id) a.only) ∙ f))

on_response-AsksOnce :
    (id code : ℕ) (handle : Option String) (i : Input)
    → AsksOnce i
    → AsksOnce (on_response id code handle i).1
unfolding on_response
on_response-AsksOnce id code handle i a = go (find id i.subscriptions) refl
  where
    go :
        (o : Option Request) → find id i.subscriptions ≡ o → AsksOnce (handled id code handle o i).1
    go none e = a
    go (some r) e =
        let (b, gone) = answering-Asking id r i a e in
        answered-AsksOnce code handle r (record i { subscriptions = remove id i.subscriptions })
          b.in_progress b.no_session gone

notify-AsksOnce :
    (accepted : Bool) (act : Act) (i : Input)
    → i.subscriptions ≡ []
    → AsksOnce (notify accepted act i).1
unfolding notify
notify-AsksOnce accepted act i e = elim (Bool-cases (i.has_bus && is_some i.session)) [
  | inl c ↦ rw c (go accepted)
  | inr c ↦ rw c (inl e)
]
  where
    tried : Bool → Step
    tried a = if a then (act ∷ [], i) else ([], record i { session = none })

    go : (a : Bool) → AsksOnce (tried a).1
    go true = inl e
    go false = inl e

of_kind-AsksOnce :
    (accepted : Bool) (session : String) (body : Fields) (kind : Option String) (i : Input)
    → i.subscriptions ≡ []
    → AsksOnce (of_kind accepted session body kind i).1
unfolding on_motion on_button on_scroll
of_kind-AsksOnce accepted session body none i e = inl e
of_kind-AsksOnce accepted session body (some kind) i e = elim (Bool-cases (str_eq kind "motion")) [
  | inl a ↦ rw a (move (number (get "dx" body)) (number (get "dy" body)))
  | inr a ↦ elim (Bool-cases (str_eq kind "button")) [
    | inl b ↦ rw (a, b) (press (button_code (get "button" body)))
    | inr b ↦ elim (Bool-cases (str_eq kind "scroll")) [
      | inl c ↦
          rw (a, b, c)
            (elim (Bool-cases (truthy dx || truthy dy)) [
              | inl d ↦ rw d (notify-AsksOnce accepted (axis session dx dy) i e)
              | inr d ↦ rw d (inl e)
            ])
      | inr c ↦ rw (a, b, c) (inl e)
    ]
  ]
]
  where
    dx : Json
    dx = or_zero (number (get "dx" body))

    dy : Json
    dy = or_zero (number (get "dy" body))

    move : (x y : Option Json) → AsksOnce (moved accepted session x y i).1
    move none y = inl e
    move (some x) none = inl e
    move (some x) (some y) = notify-AsksOnce accepted (motion session x y) i e

    press : (b : Button) → AsksOnce (pressed accepted session (truthy (get "pressed" body)) b i).1
    press unhashable = inl e
    press unknown = inl e
    press (event_code n) =
        notify-AsksOnce accepted (button session n (truthy (get "pressed" body))) i e

ensure-AsksOnce : (i : Input) → i.session ≡ none → AsksOnce i → AsksOnce (ensure_session i).1
unfolding ensure_session
ensure-AsksOnce i n a = elim (Bool-cases (not i.has_bus || (i.starting || i.refused))) [
  | inl c ↦ rw c a
  | inr c ↦ rw c (elim a [
    | inl e ↦ call-AsksOnce create_session (record i { starting = true }) refl n e
    | inr b ↦ (let z : i.starting ≡ true = b.in_progress in ground arith)
  ])
]

on_packet-AsksOnce :
    (enabled accepted : Bool) (body : Fields) (i : Input)
    → AsksOnce i
    → AsksOnce (on_packet enabled accepted body i).1
unfolding on_packet
on_packet-AsksOnce false accepted body i a = a
on_packet-AsksOnce true accepted body i a = go i.session refl
  where
    go : (o : Option String) → i.session ≡ o → AsksOnce (in_session accepted body o i).1
    go none e = ensure-AsksOnce i e a
    go (some session) e = elim a [
      | inl z ↦ of_kind-AsksOnce accepted session body (as_str (get "kind" body)) i z
      | inr b ↦ (let z : none ≡ some session = sym b.no_session ∙ e in ground arith)
    ]

-- no call of the portal fails
abbrev pub CallsWork : Event → Type 0
CallsWork (started _) = Unit
CallsWork (arrived _ _ _) = Unit
CallsWork (responded _ _ _) = Unit
CallsWork (called accepted) = accepted ≡ true
CallsWork disconnected = Unit
CallsWork stopped = Unit

quiet-AsksOnce :
    (i j : Input)
    → j.starting ≡ i.starting
    → j.session ≡ i.session
    → j.subscriptions ≡ i.subscriptions
    → AsksOnce i
    → AsksOnce j
quiet-AsksOnce i j s n q (inl e) = inl (q ∙ e)
quiet-AsksOnce i j s n q (inr a) = inr (record {
  in_progress = s ∙ a.in_progress;
  no_session = n ∙ a.no_session;
  id = a.id;
  request = a.request;
  only = q ∙ a.only;
})

step-AsksOnce : (e : Event) (i : Input) → CallsWork e → AsksOnce i → AsksOnce (step e i).1
unfolding step start on_call_done on_disconnected stop close_session
step-AsksOnce (started true) i w a = quiet-AsksOnce i (record i { has_bus = true }) refl refl refl a
step-AsksOnce (started false) i w a = a
step-AsksOnce (arrived enabled accepted body) i w a = on_packet-AsksOnce enabled accepted body i a
step-AsksOnce (responded id code handle) i w a = on_response-AsksOnce id code handle i a
step-AsksOnce (called true) i w a = a
step-AsksOnce (called false) i w a = let z : false ≡ true = w in ground arith
step-AsksOnce disconnected i w a = quiet-AsksOnce i (record i { refused = false }) refl refl refl a
step-AsksOnce stopped i w a = inl refl

pub run-AsksOnce :
    (es : List Event) (i : Input) → All CallsWork es → AsksOnce i → AsksOnce (run es i)
unfolding run
run-AsksOnce [] i w a = a
run-AsksOnce (e ∷ es) i (w, ws) a = run-AsksOnce es (step e i).1 ws (step-AsksOnce e i w a)

-- Over any events from the start of the plugin on in which no call of the portal fails, at most one
-- request of the portal waits for its answer, and while one waits there is no session.
pub run-subscriptions :
    (es : List Event)
    → All CallsWork es
    → let i = run es fresh_input in
      (length i.subscriptions ≤ 1) × (length i.subscriptions ≡ 1 → i.session ≡ none)
run-subscriptions es w = go (run es fresh_input) (run-AsksOnce es fresh_input w (inl refl))
  where
    go :
        (i : Input)
        → AsksOnce i
        → (length i.subscriptions ≤ 1) × (length i.subscriptions ≡ 1 → i.session ≡ none)
    go i (inl e) =
        (let l = ap length e in omega arith, λ q. let l = ap length e in absurd (omega arith))
    go i (inr a) = (let l = ap length a.only in omega arith, λ q. a.no_session)
