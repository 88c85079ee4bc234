-- ===== src/Files/Outcome/Events.antt =====
-- daemon/fedoralink/plugins/files.py: what every event makes of a file that comes in.
use mathlib.Core.Path.{subst}
use fedoralink.Prelude.{
  ℕ, is_some, ◌≡◌, inl, inr, refl, String, Bool, true, false, Option, none, some, List, [], ◌∷◌,
  ◌++◌, ltb, str_eq, Bool-cases, arith,
}
use fedoralink.Json.{str, Fields}
use fedoralink.Framing.{Bytes}
use fedoralink.Transfers.{Result, ok, err}
use fedoralink.Transfers.Incoming.{Hashing, discard}
use fedoralink.Transfers.Outgoing.{Outgoing, open_outgoing, next_chunk}
use fedoralink.Files.{Files, Act, take_back, Receiving, idle_files, cancel_remote, show_progress}
use fedoralink.Files.Pump.{
  Machine, Found, no_file, unreadable, file, opened, send_found, send_file, pumped, pump_from, pump,
  drop_incoming, drop_outgoing, said, nothing_left, stop_pump, lost, cancel, on_disconnected,
  on_packet, high_water_bytes,
}
use fedoralink.Files.Slots.{IsSound}
use fedoralink.Files.Slots.Events.{
  Event, arrived, chose, sending, pumping, cancelling, disconnected, step, run, run-IsSound,
}
use fedoralink.Files.Outcome.{
  Fate, left, FateOf, same-FateOf, is_flushed, discard-IsSettled, on_offer-Fate, on_chunk-Fate,
  on_done-Fate, on_accept-Fate, on_remote_cancel-Fate, offer_answered-Fate,
}

append_one : (xs : List Act) (a : Act) (ys : List Act) → (xs ++ a ∷ []) ++ ys ≡ xs ++ a ∷ ys
append_one [] a ys = refl
append_one (x ∷ xs) a ys = rw (append_one xs a ys) refl

cancel-Fate : (f : Files) → IsSound f → FateOf f.incoming (cancel f).1
unfolding cancel stop_pump
cancel-Fate f s = go f.incoming f.outgoing refl
  where
    go :
        (i : Option Receiving) (o : Option Outgoing)
        → f.incoming ≡ i
        → FateOf i (drop_incoming i ++ (drop_outgoing o ++ said i o), nothing_left o f)
    go none o e = tt
    go (some r) none e =
        left (cancel_remote (str r.transfer.id) "cancelled on the PC") _ (discard r.transfer)
          (append_one (cancel_remote (str r.transfer.id) "cancelled on the PC") _ _) refl
          (unfold discard in refl) (discard-IsSettled r.transfer (s.incoming_open r e))
    go (some r) (some t) e =
        left (cancel_remote (str r.transfer.id) "cancelled on the PC") _ (discard r.transfer)
          (append_one (cancel_remote (str r.transfer.id) "cancelled on the PC") _ _) refl
          (unfold discard in refl) (discard-IsSettled r.transfer (s.incoming_open r e))

pump-Fate :
    (h : Hashing) (b64encode : Bytes → String) (shown : Option ℕ → Option ℕ) (pending_bytes : ℕ)
    (f : Files)
    → FateOf f.incoming (pump h b64encode shown pending_bytes f)
unfolding pump show_progress
pump-Fate h b64encode shown pending_bytes f = go f.outgoing
  where
    over : (x : Option (ℕ × Bytes) × Outgoing) → FateOf f.incoming (pumped h b64encode shown x f)
    over (none, t) = same-FateOf f.incoming _ refl
    over (some (seq, bytes), t) = same-FateOf f.incoming _ refl

    go : (o : Option Outgoing) → FateOf f.incoming (pump_from h b64encode shown pending_bytes o f)
    go none = same-FateOf f.incoming _ refl
    go (some t) = elim (Bool-cases (ltb high_water_bytes pending_bytes)) [
      | inl b ↦ rw b (same-FateOf f.incoming _ refl)
      | inr b ↦ rw b (over (next_chunk t))
    ]

send_file-Fate :
    (a : Bool) (id name : String) (found : Found) (f : Files)
    → FateOf f.incoming (send_file a id name found f).1
unfolding send_file
send_file-Fate false id name found f = same-FateOf f.incoming _ refl
send_file-Fate true id name found f = elim (Bool-cases (is_some f.outgoing)) [
  | inl b ↦ rw b (same-FateOf f.incoming _ refl)
  | inr b ↦ rw b (sent found)
]
  where
    fresh : (r : Result Outgoing) → FateOf f.incoming (opened name r f).1
    fresh (err e) = same-FateOf f.incoming _ refl
    fresh (ok t) = same-FateOf f.incoming _ refl

    sent : (x : Found) → FateOf f.incoming (send_found id name x f).1
    sent no_file = same-FateOf f.incoming _ refl
    sent unreadable = same-FateOf f.incoming _ refl
    sent (file content) = fresh (open_outgoing id content)

on_disconnected-Fate : (f : Files) → IsSound f → FateOf f.incoming (on_disconnected f)
unfolding on_disconnected
on_disconnected-Fate f s = go f.incoming refl
  where
    go :
        (i : Option Receiving)
        → f.incoming ≡ i
        → FateOf i (lost i ++ take_back f.prompt_id ∷ [], idle_files)
    go none e = tt
    go (some r) e =
        left [] _ (discard r.transfer) refl refl (unfold discard in refl)
          (discard-IsSettled r.transfer (s.incoming_open r e))

on_packet-Fate :
    (m : Machine) (t : String) (body : Fields) (f : Files)
    → is_flushed m.saving ≡ true
    → IsSound f
    → FateOf f.incoming (on_packet m t body f)
unfolding on_packet
on_packet-Fate m t body f w s = elim (Bool-cases (str_eq t "fedoralink.file.offer")) [
  | inl a ↦ rw a (on_offer-Fate m.posted body f)
  | inr a ↦ elim (Bool-cases (str_eq t "fedoralink.file.chunk")) [
    | inl b ↦ rw (a, b) (on_chunk-Fate m.shown m.b64decode m.writes body f s)
    | inr b ↦ elim (Bool-cases (str_eq t "fedoralink.file.done")) [
      | inl c ↦ rw (a, b, c) (on_done-Fate m.hashing m.saving body f w s)
      | inr c ↦ elim (Bool-cases (str_eq t "fedoralink.file.cancel")) [
        | inl d ↦ rw (a, b, c, d) (on_remote_cancel-Fate body f s)
        | inr d ↦ elim (Bool-cases (str_eq t "fedoralink.file.accept")) [
          | inl e ↦ rw (a, b, c, d, e) (on_accept-Fate m.shown body f)
          | inr e ↦ rw (a, b, c, d, e) (same-FateOf f.incoming _ refl)
        ]
      ]
    ]
  ]
]

-- `close` does not fail at the end of a file
abbrev pub flushes : Event → Bool
flushes (arrived m t body) = is_flushed m.saving
flushes (chose _ _ _) = true
flushes (sending _ _ _ _) = true
flushes (pumping _ _ _ _) = true
flushes cancelling = true
flushes disconnected = true

step-Fate : (e : Event) (f : Files) → flushes e ≡ true → IsSound f → FateOf f.incoming (step e f)
unfolding step
step-Fate (arrived m t body) f w s = on_packet-Fate m t body f w s
step-Fate (chose shown place action) f w s = offer_answered-Fate shown place action f s
step-Fate (sending a id name found) f w s = send_file-Fate a id name found f
step-Fate (pumping h b64encode shown n) f w s = pump-Fate h b64encode shown n f
step-Fate cancelling f w s = cancel-Fate f s
step-Fate disconnected f w s = on_disconnected-Fate f s

-- the events that end every transfer
abbrev pub ends : Event → Bool
ends cancelling = true
ends disconnected = true
ends (arrived _ _ _) = false
ends (chose _ _ _) = false
ends (sending _ _ _ _) = false
ends (pumping _ _ _ _) = false

no_event : {A : Type 0} → false ≡ true → A
no_event e = ground arith

ended-step : (e : Event) (f : Files) → ends e ≡ true → (step e f).1.incoming ≡ none
unfolding step cancel on_disconnected stop_pump
ended-step disconnected f w = refl
ended-step cancelling f w = go f.outgoing
  where
    go : (o : Option Outgoing) → (nothing_left o f).incoming ≡ none
    go none = refl
    go (some t) = refl
ended-step (arrived _ _ _) f w = no_event w
ended-step (chose _ _ _) f w = no_event w
ended-step (sending _ _ _ _) f w = no_event w
ended-step (pumping _ _ _ _) f w = no_event w

-- After any events from the start on, a file that comes in is either still in its slot behind the
-- next event, or it has left it: then the slot is free, no .part file is left, and there is either no
-- file at all under its path or a file as long as was promised. A cancel on the
-- PC and the end of the link always make it leave. The next event may be any but a `close` that fails.
pub run-Fate :
    (es : List Event) (e : Event) (r : Receiving)
    → flushes e ≡ true
    → (run es idle_files).incoming ≡ some r
    → Fate r (step e (run es idle_files))
      × (ends e ≡ true → (step e (run es idle_files)).1.incoming ≡ none)
run-Fate es e r w there = (
  subst (λ i. FateOf i (step e (run es idle_files))) there
      (step-Fate e (run es idle_files) w (run-IsSound es)),
  ended-step e (run es idle_files),
)
