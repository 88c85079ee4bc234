-- ===== src/Files/Slots/Events.antt =====
-- daemon/fedoralink/plugins/files.py: what happens to the plugin, as a list of events.
use fedoralink.Prelude.{ℕ, String, Bool, Option, List, [], ◌∷◌}
use fedoralink.Json.{Fields}
use fedoralink.Framing.{Bytes}
use fedoralink.Transfers.{Text}
use fedoralink.Transfers.Incoming.{Hashing}
use fedoralink.Files.{Files, Step, idle_files, offer_answered}
use fedoralink.Files.Pump.{Machine, Found, send_file, pump, cancel, on_disconnected, on_packet}
use fedoralink.Files.Slots.{IsSound, idle-IsSound}
use fedoralink.Files.Slots.Handlers.{offer_answered-IsSound, cancel-IsSound}
use fedoralink.Files.Slots.Sending.{on_packet-IsSound, send_file-IsSound, pump-IsSound}

-- What happens to the plugin: a packet, the answer of the user to the prompt, a call of `send_file`
-- or `cancel` over D-Bus, a turn of the pump at so many bytes pending, and the end of the link.
pub data Event : Type 0 where
  arrived : Machine → String → Fields → Event
  chose : (Option ℕ → Option ℕ) → Option Text → Option String → Event
  sending : Bool → String → String → Found → Event
  pumping : Hashing → (Bytes → String) → (Option ℕ → Option ℕ) → ℕ → Event
  cancelling disconnected : Event

unfoldable pub step : Event → Files → Step
step (arrived m t body) f = on_packet m t body f
step (chose shown place action) f = offer_answered shown place action f
step (sending authenticated id name found) f = (send_file authenticated id name found f).1
step (pumping h b64encode shown pending_bytes) f = pump h b64encode shown pending_bytes f
step cancelling f = (cancel f).1
step disconnected f = on_disconnected f

unfoldable pub run : List Event → Files → Files
run [] f = f
run (e ∷ es) f = run es (step e f).1

pub step-IsSound : (e : Event) (f : Files) → IsSound f → IsSound (step e f).1
unfolding step on_disconnected
step-IsSound (arrived m t body) f s = on_packet-IsSound m t body f s
step-IsSound (chose shown place action) f s = offer_answered-IsSound shown place action f s
step-IsSound (sending a id name found) f s = send_file-IsSound a id name found f s
step-IsSound (pumping h b64encode shown n) f s = pump-IsSound h b64encode shown n f s
step-IsSound cancelling f s = cancel-IsSound f s
step-IsSound disconnected f s = idle-IsSound

run_from-IsSound : (es : List Event) (f : Files) → IsSound f → IsSound (run es f)
unfolding run
run_from-IsSound [] f s = s
run_from-IsSound (e ∷ es) f s = run_from-IsSound es (step e f).1 (step-IsSound e f s)

-- Whatever happens to the plugin from its start on: a transfer in its slot is open, with its bytes
-- accounted for; no offer waits for an answer while a file comes in; a prompt stands exactly as long
-- as an offer; and the pump runs only for a file going out.
pub run-IsSound : (es : List Event) → IsSound (run es idle_files)
run-IsSound es = run_from-IsSound es idle_files idle-IsSound
