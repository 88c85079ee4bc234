-- ===== src/Input/Refusal.antt =====
-- daemon/fedoralink/plugins/remote_input.py: input behind a refusal by the user.
use fedoralink.Prelude.{
  ℕ, ◌≡◌, inl, refl, ◌∙◌, ap, String, true, false, not, Option, none, some, List, [], ◌∷◌, ◌++◌,
  ◌||◌, arith,
}
use fedoralink.Framing.Codec.{All}
use fedoralink.Input.{
  Request, create_session, select_devices, start_session, Input, fresh_input, Step, ensure_session,
  in_session, on_packet, fail, answered, find, remove, on_response, on_call_done, Event, started,
  arrived, responded, called, disconnected, stopped, step, run,
}
use fedoralink.Input.Dialogs.{AsksOnce, CallsWork, answering-Asking, run-AsksOnce}

-- input from the phone, or a call of the portal that goes through
abbrev pub IsInput : Event → Type 0
IsInput (started _) = ⊥
IsInput (arrived _ _ _) = Unit
IsInput (responded _ _ _) = ⊥
IsInput (called accepted) = accepted ≡ true
IsInput disconnected = ⊥
IsInput stopped = ⊥

-- what the events make the plugin do, and the state they leave
unfoldable pub acts_of : List Event → Input → Step
acts_of [] i = ([], i)
acts_of (e ∷ es) i = let (acts, j) = step e i in let (more, k) = acts_of es j in (acts ++ more, k)

record HasRefused (i : Input) : Type 0 where
  is_refused : i.refused ≡ true
  no_session : i.session ≡ none

ensure-refused : (i : Input) → i.refused ≡ true → ensure_session i ≡ ([], i)
unfolding ensure_session
ensure-refused i r =
    let c : (not i.has_bus || (i.starting || i.refused)) ≡ true = ground arith in rw c refl

step-refused : (e : Event) (i : Input) → IsInput e → HasRefused i → step e i ≡ ([], i)
unfolding step on_packet on_call_done
step-refused (arrived false accepted body) i w r = refl
step-refused (arrived true accepted body) i w r =
    ap (λ o. in_session accepted body o i) r.no_session ∙ ensure-refused i r.is_refused
step-refused (called true) i w r = refl
step-refused (called false) i w r = let z : false ≡ true = w in ground arith
step-refused (started connected) i w r = absurd w
step-refused (responded id code handle) i w r = absurd w
step-refused disconnected i w r = absurd w
step-refused stopped i w r = absurd w

acts_of-refused :
    (es : List Event) (i : Input) → All IsInput es → HasRefused i → acts_of es i ≡ ([], i)
unfolding acts_of
acts_of-refused [] i w r = refl
acts_of-refused (e ∷ es) i (w, ws) r =
    ap (λ (x : Step). (x.0 ++ (acts_of es x.1).0, (acts_of es x.1).1)) (step-refused e i w r)
    ∙ acts_of-refused es i ws r

response-HasRefused :
    (id : ℕ) (handle : Option String) (r : Request) (i : Input)
    → AsksOnce i
    → find id i.subscriptions ≡ some r
    → HasRefused (on_response id 1 handle i).1
unfolding on_response answered fail
response-HasRefused id handle r i a f = rw f (
    go r (record i { subscriptions = remove id i.subscriptions })
      (answering-Asking id r i a f).0.no_session)
  where
    go : (r : Request) (j : Input) → j.session ≡ none → HasRefused (answered r 1 handle j).1
    go create_session j n = record { is_refused = refl; no_session = n }
    go (select_devices h) j n = record { is_refused = refl; no_session = n }
    go (start_session h) j n = record { is_refused = refl; no_session = n }

-- Once the portal has answered a request that waits with its code for a refusal by the user, after
-- events in which no call failed, input of any kind and number makes the plugin do nothing and
-- leaves its state as it is: the user is not asked again.
pub acts_of-on_response :
    (es : List Event) (id : ℕ) (handle : Option String) (r : Request) (more : List Event)
    → All CallsWork es
    → find id (run es fresh_input).subscriptions ≡ some r
    → All IsInput more
    → let i = (step (responded id 1 handle) (run es fresh_input)).1 in acts_of more i ≡ ([], i)
unfolding step
acts_of-on_response es id handle r more w f inputs =
    let a = run-AsksOnce es fresh_input w (inl refl) in
    acts_of-refused more (on_response id 1 handle (run es fresh_input)).1 inputs
      (response-HasRefused id handle r (run es fresh_input) a f)
