-- ===== src/Input/Consent/Granted.antt =====
-- daemon/fedoralink/plugins/remote_input.py: where a session comes from.
use mathlib.Core.Path.{subst}
use mathlib.Core.Option.{some-injective}
use fedoralink.Prelude.{
  ℕ, ◌≡◌, ◌⊎◌, inl, inr, refl, sym, ◌∙◌, ap, String, true, false, Option, none, some, List, [], ◌∷◌,
  str_eq, ◌==◌, arith, Bool-cases, ==_iff,
}
use fedoralink.Framing.Codec.{All}
use fedoralink.Input.{
  Request, create_session, select_devices, start_session, Act, call, motion, button, axis, ready,
  escaped, unsubscribe, close, Input, fresh_input, Step, call_with_response, fail, created,
  answered, find, remove, handled, on_response, on_call_done, on_disconnected, close_session, start,
  stop, Event, started, arrived, responded, called, disconnected, stopped, step, run,
}
use fedoralink.Input.Consent.{UsesOnly, on_packet-Keeps, closing-Uses}

-- A session comes from a successful response to the Start request of that session.
record Opens (id code : ℕ) (i : Input) (x : Step) : Type 0 where
  uses : All (UsesOnly i.session) x.0
  opens :
      (s : String)
      → x.1.session ≡ some s
      → (i.session ≡ some s) ⊎ ((code ≡ 0) × (find id i.subscriptions ≡ some (start_session s)))

failing-Opens :
    (id code c : ℕ) (acts : List Act) (i j : Input)
    → All (UsesOnly i.session) acts
    → j.session ≡ i.session
    → Opens id code i (acts, fail c j)
unfolding fail
failing-Opens id code c acts i j u k = elim (Bool-cases (c == 1)) [
  | inl e ↦ rw e (record { uses = u; opens = λ s q. inl (sym k ∙ q) })
  | inr e ↦ rw e (record { uses = u; opens = λ s q. inl (sym k ∙ q) })
]

calling-Opens :
    (id code n : ℕ) (r : Request) (i j : Input)
    → j.session ≡ i.session
    → Opens id code i (unsubscribe n ∷ (call_with_response r j).0, (call_with_response r j).1)
unfolding call_with_response
calling-Opens id code n r i j k = record { uses = (tt, (tt, tt)); opens = λ s q. inl (sym k ∙ q) }

abbrev behind : Act → Step → Step
behind a x = (a ∷ x.0, x.1)

answered-Opens :
    (id code : ℕ) (handle : Option String) (r : Request) (i j : Input)
    → j.session ≡ i.session
    → find id i.subscriptions ≡ some r
    → Opens id code i (behind (unsubscribe id) (answered r code handle j))
unfolding answered
answered-Opens id code handle create_session i j k found = elim (Bool-cases (code == 0)) [
  | inl e ↦ rw e (go handle)
  | inr e ↦ rw e (failing-Opens id code code (unsubscribe id ∷ []) i j (tt, tt) k)
]
  where
    go : (o : Option String) → Opens id code i (behind (unsubscribe id) (created o code j))
    go none = failing-Opens id code code (unsubscribe id ∷ []) i j (tt, tt) k
    go (some s) = elim (Bool-cases (str_eq s "")) [
      | inl e ↦ rw e (failing-Opens id code code (unsubscribe id ∷ []) i j (tt, tt) k)
      | inr e ↦ rw e (calling-Opens id code id (select_devices s) i j k)
    ]
answered-Opens id code handle (select_devices session) i j k found = elim (Bool-cases (code == 0)) [
  | inl e ↦ rw e (calling-Opens id code id (start_session session) i j k)
  | inr e ↦ rw e (failing-Opens id code code (unsubscribe id ∷ []) i j (tt, tt) k)
]
answered-Opens id code handle (start_session session) i j k found = elim (Bool-cases (code == 0)) [
  | inl e ↦ rw e (record {
    uses = (tt, (tt, tt));
    opens = λ s q. inr (
      (==_iff code 0).0 e,
      found ∙ ap (λ x. some (start_session x)) (some-injective session s q),
    );
  })
  | inr e ↦ rw e (
      failing-Opens id code code (unsubscribe id ∷ []) i (record j { starting = false }) (tt, tt) k)
]

on_response-Opens :
    (id code : ℕ) (handle : Option String) (i : Input)
    → Opens id code i (on_response id code handle i)
unfolding on_response
on_response-Opens id code handle i = go (find id i.subscriptions) refl
  where
    go :
        (o : Option Request)
        → find id i.subscriptions ≡ o
        → Opens id code i (handled id code handle o i)
    go none e = record { uses = tt; opens = λ s q. inl q }
    go (some r) e =
        answered-Opens id code handle r i (record i { subscriptions = remove id i.subscriptions })
          refl e

-- From a state on, the events hold a successful response to the Start request of this session.
pub data IsGranted (s : String) : List Event → Input → Type 0 where
  now :
      (id : ℕ) (handle : Option String) (es : List Event) (i : Input)
      → find id i.subscriptions ≡ some (start_session s)
      → IsGranted s (responded id 0 handle ∷ es) i
  later :
      (e : Event) (es : List Event) (i : Input)
      → IsGranted s es (step e i).1
      → IsGranted s (e ∷ es) i

step-session :
    (e : Event) (es : List Event) (i : Input) (s : String)
    → (step e i).1.session ≡ some s
    → (i.session ≡ some s) ⊎ IsGranted s (e ∷ es) i
unfolding step start on_call_done on_disconnected stop close_session
step-session (started true) es i s q = inl q
step-session (started false) es i s q = inl q
step-session (arrived enabled accepted body) es i s q =
    elim (on_packet-Keeps enabled accepted body i).session_kept [
      | inl e ↦ inl (sym e ∙ q)
      | inr e ↦ let z : none ≡ some s = sym e ∙ q in ground arith
    ]
step-session (responded id code handle) es i s q =
    elim ((on_response-Opens id code handle i).opens s q) [
      | inl e ↦ inl e
      | inr (zero_code, found) ↦ inr (
          subst (λ c. IsGranted s (responded id c handle ∷ es) i) (sym zero_code)
            (now id handle es i found))
    ]
step-session (called true) es i s q = inl q
step-session (called false) es i s q = inl q
step-session disconnected es i s q = inl q
step-session stopped es i s q = ground arith

run-session :
    (es : List Event) (i : Input) (s : String)
    → (run es i).session ≡ some s
    → (i.session ≡ some s) ⊎ IsGranted s es i
unfolding run
run-session [] i s q = inl q
run-session (e ∷ es) i s q = elim (run-session es (step e i).1 s q) [
  | inl k ↦ step-session e es i s k
  | inr g ↦ inr (later e es i g)
]

step-UsesOnly : (e : Event) (i : Input) → All (UsesOnly i.session) (step e i).0
unfolding step stop close_session
step-UsesOnly (started connected) i = tt
step-UsesOnly (arrived enabled accepted body) i = (on_packet-Keeps enabled accepted body i).uses
step-UsesOnly (responded id code handle) i = (on_response-Opens id code handle i).uses
step-UsesOnly (called accepted) i = tt
step-UsesOnly disconnected i = tt
step-UsesOnly stopped i = closing-Uses i.session i.has_bus i.subscriptions i.session

-- a call that moves the pointer is made in a session that the events so far have granted
abbrev pub IsPermitted : List Event → Act → Type 0
IsPermitted es (call _ _) = Unit
IsPermitted es (motion s _ _) = IsGranted s es fresh_input
IsPermitted es (button s _ _) = IsGranted s es fresh_input
IsPermitted es (axis s _ _) = IsGranted s es fresh_input
IsPermitted es ready = Unit
IsPermitted es escaped = Unit
IsPermitted es (unsubscribe _) = Unit
IsPermitted es (close _) = Unit

granted :
    (es : List Event) (s : String)
    → (run es fresh_input).session ≡ some s
    → IsGranted s es fresh_input
granted es s q = elim (run-session es fresh_input s q) [
  | inl e ↦ (let z : none ≡ some s = e in ground arith)
  | inr g ↦ g
]

permit :
    (es : List Event) (acts : List Act)
    → All (UsesOnly (run es fresh_input).session) acts
    → All (IsPermitted es) acts
permit es [] u = tt
permit es (call n r ∷ acts) (u, us) = (tt, permit es acts us)
permit es (motion s x y ∷ acts) (u, us) = (granted es s u, permit es acts us)
permit es (button s n b ∷ acts) (u, us) = (granted es s u, permit es acts us)
permit es (axis s x y ∷ acts) (u, us) = (granted es s u, permit es acts us)
permit es (ready ∷ acts) (u, us) = (tt, permit es acts us)
permit es (escaped ∷ acts) (u, us) = (tt, permit es acts us)
permit es (unsubscribe n ∷ acts) (u, us) = (tt, permit es acts us)
permit es (close s ∷ acts) (u, us) = (tt, permit es acts us)

-- After any events from the start of the plugin on, whatever happens next: the pointer is moved, a
-- button pressed or a wheel turned only in a session whose Start request the portal has answered
-- with success.
pub run-IsPermitted :
    (es : List Event) (e : Event) → All (IsPermitted es) (step e (run es fresh_input)).0
run-IsPermitted es e =
    permit es (step e (run es fresh_input)).0 (step-UsesOnly e (run es fresh_input))
