-- ===== src/Files/Slots.antt =====
-- daemon/fedoralink/plugins/files.py: the slots of the plugin between two events.
pub mod Sending
pub mod Handlers
pub mod Events
use mathlib.Core.Path.{subst}
use mathlib.Core.Option.{some-injective}
use fedoralink.Prelude.{
  ℕ, ◌≡◌, ◌⊎◌, inl, inr, refl, sym, ◌∙◌, ap, String, Bool, true, false, Option, none, some, List,
  [], ◌∷◌, ◌++◌, ltb, str_eq, arith, Bool-cases, Option-cases, if◌then◌else◌, is_some, is_empty,
  take,
}
use fedoralink.Json.{Json, str, Fields, get}
use fedoralink.Framing.{Bytes}
use fedoralink.Transfers.{Offer}
use fedoralink.Transfers.Incoming.{Incoming}
use fedoralink.Transfers.Incoming.Laws.{IsAccounted}
use fedoralink.Transfers.Outgoing.{Outgoing}
use fedoralink.Files.{Files, Receiving, Source, idle_files}

-- A transfer that is going on: open, with its bytes accounted for, and no file in place.
pub record IsOpen (t : Incoming) : Type 0 where
  pub reading : t.closed ≡ false
  pub accounted : IsAccounted t
  pub absent : t.target ≡ none

-- A transfer in its slot is open and accounted for. There is no offer to answer while a file comes
-- in, a prompt stands exactly as long as an offer, and the pump runs only for a file going out.
pub record IsSound (f : Files) : Type 0 where
  pub one_incoming : (f.incoming ≡ none) ⊎ (f.pending_offer ≡ none)
  pub offered_prompts : f.prompt_id ≡ none → f.pending_offer ≡ none
  pub prompts_offered : f.pending_offer ≡ none → f.prompt_id ≡ none
  pub pumps_outgoing : f.outgoing ≡ none → f.pump_source ≡ none
  pub incoming_open : (r : Receiving) → f.incoming ≡ some r → IsOpen r.transfer
  pub outgoing_open : (t : Outgoing) → f.outgoing ≡ some t → t.closed ≡ false

pub idle-IsSound : IsSound idle_files
idle-IsSound = record {
  one_incoming = inl refl;
  offered_prompts = λ e. refl;
  prompts_offered = λ e. refl;
  pumps_outgoing = λ e. refl;
  incoming_open = λ r e. ground arith;
  outgoing_open = λ t e. ground arith;
}

-- changes of one part
pub offer-IsSound :
    (id : ℕ) (o : Offer) (f : Files)
    → f.incoming ≡ none
    → IsSound f
    → IsSound (record f { prompt_id = some id; pending_offer = some o })
offer-IsSound id o f n s = record {
  one_incoming = inl n;
  offered_prompts = λ e. ground arith;
  prompts_offered = λ e. ground arith;
  pumps_outgoing = s.pumps_outgoing;
  incoming_open = s.incoming_open;
  outgoing_open = s.outgoing_open;
}

pub no_offer-IsSound :
    (f : Files) → IsSound f → IsSound (record f { prompt_id = none; pending_offer = none })
no_offer-IsSound f s = record {
  one_incoming = inr refl;
  offered_prompts = λ e. refl;
  prompts_offered = λ e. refl;
  pumps_outgoing = s.pumps_outgoing;
  incoming_open = s.incoming_open;
  outgoing_open = s.outgoing_open;
}

pub progress-IsSound :
    (o : Option ℕ) (f : Files) → IsSound f → IsSound (record f { progress_id = o })
progress-IsSound o f s = record {
  one_incoming = s.one_incoming;
  offered_prompts = s.offered_prompts;
  prompts_offered = s.prompts_offered;
  pumps_outgoing = s.pumps_outgoing;
  incoming_open = s.incoming_open;
  outgoing_open = s.outgoing_open;
}

pub incoming-IsSound :
    (r : Receiving) (f : Files)
    → f.pending_offer ≡ none
    → IsOpen r.transfer
    → IsSound f
    → IsSound (record f { incoming = some r })
incoming-IsSound r f n o s = record {
  one_incoming = inr n;
  offered_prompts = s.offered_prompts;
  prompts_offered = s.prompts_offered;
  pumps_outgoing = s.pumps_outgoing;
  incoming_open = λ q e. subst (λ (x : Receiving). IsOpen x.transfer) (some-injective r q e) o;
  outgoing_open = s.outgoing_open;
}

pub no_incoming-IsSound : (f : Files) → IsSound f → IsSound (record f { incoming = none })
no_incoming-IsSound f s = record {
  one_incoming = inl refl;
  offered_prompts = s.offered_prompts;
  prompts_offered = s.prompts_offered;
  pumps_outgoing = s.pumps_outgoing;
  incoming_open = λ r e. ground arith;
  outgoing_open = s.outgoing_open;
}

pub outgoing-IsSound :
    (t : Outgoing) (f : Files)
    → t.closed ≡ false
    → IsSound f
    → IsSound (record f { outgoing = some t })
outgoing-IsSound t f c s = record {
  one_incoming = s.one_incoming;
  offered_prompts = s.offered_prompts;
  prompts_offered = s.prompts_offered;
  pumps_outgoing = λ e. ground arith;
  incoming_open = s.incoming_open;
  outgoing_open = λ q e. subst (λ (x : Outgoing). x.closed ≡ false) (some-injective t q e) c;
}

pub no_outgoing-IsSound :
    (f : Files) → IsSound f → IsSound (record f { outgoing = none; pump_source = none })
no_outgoing-IsSound f s = record {
  one_incoming = s.one_incoming;
  offered_prompts = s.offered_prompts;
  prompts_offered = s.prompts_offered;
  pumps_outgoing = λ e. refl;
  incoming_open = s.incoming_open;
  outgoing_open = λ t e. ground arith;
}

pub pumping-IsSound :
    (p : Option Source) (t : Outgoing) (f : Files)
    → f.outgoing ≡ some t
    → IsSound f
    → IsSound (record f { pump_source = p })
pumping-IsSound p t f o s = record {
  one_incoming = s.one_incoming;
  offered_prompts = s.offered_prompts;
  prompts_offered = s.prompts_offered;
  pumps_outgoing = λ e. let z : none ≡ some t = sym e ∙ o in ground arith;
  incoming_open = s.incoming_open;
  outgoing_open = s.outgoing_open;
}

pub quiet-IsSound : (f : Files) → IsSound f → IsSound (record f { pump_source = none })
quiet-IsSound f s = record {
  one_incoming = s.one_incoming;
  offered_prompts = s.offered_prompts;
  prompts_offered = s.prompts_offered;
  pumps_outgoing = λ e. refl;
  incoming_open = s.incoming_open;
  outgoing_open = s.outgoing_open;
}
