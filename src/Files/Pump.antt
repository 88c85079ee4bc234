-- ===== src/Files/Pump.antt =====
-- daemon/fedoralink/plugins/files.py: sending a file, and everything that ends a transfer.
use fedoralink.Prelude.{
  ℕ, ◌*◌, String, Bool, true, false, Option, none, some, List, [], ◌∷◌, ◌++◌, ltb, str_eq,
  if◌then◌else◌, is_some, ◌||◌,
}
use fedoralink.Json.{str, int, Fields, end, field}
use fedoralink.Framing.{Bytes}
use fedoralink.Transfers.{Result, ok, err}
use fedoralink.Transfers.Incoming.{Hashing, Saving, discard}
use fedoralink.Transfers.Outgoing.{Outgoing, open_outgoing, next_chunk, sha256}
use fedoralink.Files.{
  Files, Step, Act, packet, tell, take_back, released, Receiving, when_idle, after_drain,
  idle_files, cancel_remote, is_for, show_progress, on_offer, on_chunk, on_done,
}

abbrev pub high_water_bytes : ℕ
high_water_bytes = 96 * 1024

-- what `send_file` finds under the path: no file, a file that cannot be opened, or its content
pub data Found : Type 0 where
  no_file unreadable : Found
  file : Bytes → Found

abbrev pub opened : String → Result Outgoing → Files → Bool × Step
opened name (err e) f = (false, (tell "Cannot send" ∷ [], f))
opened name (ok t) f = (
  true,
  (
    packet "fedoralink.file.offer"
          (field "id" (str t.id) (field "name" (str name) (field "size" (int t.size) end)))
        ∷ [],
    record f { outgoing = some t },
  ),
)

abbrev pub send_found : String → String → Found → Files → Bool × Step
send_found id name no_file f = (false, (tell "Cannot send" ∷ [], f))
send_found id name unreadable f = (false, (tell "Cannot send" ∷ [], f))
send_found id name (file content) f = opened name (open_outgoing id content) f

-- `send_file`; `id` is the token that is drawn, and `name` the name of the file
unfoldable pub send_file : Bool → String → String → Found → Files → Bool × Step
send_file authenticated id name found f =
    if authenticated
    then (if is_some f.outgoing
        then (false, (tell "Already sending" ∷ [], f))
        else send_found id name found f)
    else (false, ([], f))

-- `_start_pump`, behind `_stop_pump`
unfoldable pub start_pump : Files → Files
start_pump f = record f { pump_source = some when_idle }

unfoldable pub stop_pump : Files → Files
stop_pump f = record f { pump_source = none }

abbrev pub accepted : (Option ℕ → Option ℕ) → Fields → Option Outgoing → Files → Step
accepted shown body none f = ([], f)
accepted shown body (some t) f =
    if is_for body t.id
    then (let (acts, f') = show_progress shown 0 1 f in (acts, start_pump f'))
    else ([], f)

-- `_on_accept`
unfoldable pub on_accept : (Option ℕ → Option ℕ) → Fields → Files → Step
unfolding is_for show_progress start_pump
on_accept shown body f = accepted shown body f.outgoing f

module _ (h : Hashing) (b64encode : Bytes → String) (shown : Option ℕ → Option ℕ) where
  abbrev pub chunk_packet : String → ℕ → Bytes → Act
  chunk_packet id seq bytes =
      packet "fedoralink.file.chunk"
        (field "id" (str id) (field "seq" (int seq) (field "data" (str (b64encode bytes)) end)))

  abbrev pub done_packet : Outgoing → Act
  done_packet t =
      packet "fedoralink.file.done" (field "id" (str t.id) (field "sha256" (str (sha256 h t)) end))

  abbrev pub pumped : Option (ℕ × Bytes) × Outgoing → Files → Step
  pumped (none, t) f =
      (done_packet t ∷ tell "File sent" ∷ [], record f { pump_source = none; outgoing = none })
  pumped (some (seq, bytes), t) f =
      let (acts, f') = show_progress shown t.sent t.size (record f { outgoing = some t }) in
      (chunk_packet t.id seq bytes ∷ acts, f')

  abbrev pub pump_from : ℕ → Option Outgoing → Files → Step
  pump_from pending_bytes none f = ([], record f { pump_source = none })
  pump_from pending_bytes (some t) f =
      if ltb high_water_bytes pending_bytes
      then ([], record f { pump_source = some after_drain })
      else pumped (next_chunk t) f

  -- `_pump`
  unfoldable pub pump : ℕ → Files → Step
  unfolding show_progress
  pump pending_bytes f = pump_from pending_bytes f.outgoing f

abbrev pub cancel_outgoing : Fields → Option Outgoing → Files → Step
cancel_outgoing body none f = ([], f)
cancel_outgoing body (some t) f =
    if is_for body t.id
    then (tell "Send cancelled" ∷ [], stop_pump (record f { outgoing = none }))
    else ([], f)

abbrev pub cancel_incoming : Fields → Option Receiving → Files → Step
cancel_incoming body none f = cancel_outgoing body f.outgoing f
cancel_incoming body (some r) f =
    if is_for body r.transfer.id
    then (
      released r.path (discard r.transfer) ∷ tell "Transfer cancelled" ∷ [],
      record f { incoming = none },
    )
    else cancel_outgoing body f.outgoing f

-- `_on_remote_cancel`
unfoldable pub on_remote_cancel : Fields → Files → Step
unfolding is_for stop_pump
on_remote_cancel body f = cancel_incoming body f.incoming f

abbrev pub drop_incoming : Option Receiving → List Act
drop_incoming none = []
drop_incoming (some r) =
    cancel_remote (str r.transfer.id) "cancelled on the PC"
    ++ released r.path (discard r.transfer) ∷ []

abbrev pub drop_outgoing : Option Outgoing → List Act
drop_outgoing none = []
drop_outgoing (some t) = cancel_remote (str t.id) "cancelled on the PC"

abbrev pub nothing_left : Option Outgoing → Files → Files
nothing_left none f = record f { incoming = none }
nothing_left (some t) f = stop_pump (record f { incoming = none; outgoing = none })

abbrev pub said : Option Receiving → Option Outgoing → List Act
said none none = []
said (some _) _ = tell "Transfer cancelled" ∷ []
said none (some _) = tell "Transfer cancelled" ∷ []

-- `cancel`; it returns whether something was in flight
unfoldable pub cancel : Files → Bool × Step
unfolding cancel_remote stop_pump
cancel f = (
  is_some f.incoming || is_some f.outgoing,
  (
    drop_incoming f.incoming ++ (drop_outgoing f.outgoing ++ said f.incoming f.outgoing),
    nothing_left f.outgoing f,
  ),
)

abbrev pub lost : Option Receiving → List Act
lost none = []
lost (some r) = released r.path (discard r.transfer) ∷ tell "Transfer failed" ∷ []

-- `on_disconnected`, with `_reset`
unfoldable pub on_disconnected : Files → Step
on_disconnected f = (lost f.incoming ++ take_back f.prompt_id ∷ [], idle_files)

-- what the handlers ask of the machine
pub record Machine : Type 0 where
  pub posted : Option ℕ
  pub shown : Option ℕ → Option ℕ
  pub b64decode : String → Option Bytes
  pub hashing : Hashing
  pub writes : Bool
  pub saving : Saving

-- `on_packet`
unfoldable pub on_packet : Machine → String → Fields → Files → Step
unfolding on_offer on_chunk on_done on_remote_cancel on_accept
on_packet m t body f =
    if str_eq t "fedoralink.file.offer"
    then on_offer m.posted body f
    else if str_eq t "fedoralink.file.chunk"
    then on_chunk m.shown m.b64decode m.writes body f
    else if str_eq t "fedoralink.file.done"
    then on_done m.hashing m.saving body f
    else if str_eq t "fedoralink.file.cancel"
    then on_remote_cancel body f
    else if str_eq t "fedoralink.file.accept"
    then on_accept m.shown body f
    else ([], f)
