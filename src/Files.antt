-- ===== src/Files.antt =====
-- daemon/fedoralink/plugins/files.py: `FilesPlugin`, between the offers, the user and the two kinds
-- of transfer. What a handler does outside is a list of acts; the texts of its messages are left out.
pub mod Pump
pub mod Slots
pub mod Whole
pub mod Outcome
pub mod Flow
use fedoralink.Prelude.{
  ℕ, ◌*◌, String, Bool, true, false, Option, none, some, List, [], ◌∷◌, ◌++◌, length, ltb, str_eq,
  if◌then◌else◌,
}
use fedoralink.Json.{Json, str, int, Fields, end, field, get, truthy, as_str, as_text}
use fedoralink.Framing.{Bytes}
use fedoralink.Transfers.{Text, TransferError, Offer, Result, ok, err, validate_offer}
use fedoralink.Transfers.Incoming.{
  Hashing, Saving, Incoming, open_incoming, write_chunk, Reply, done, error, discard, finish,
}
use fedoralink.Transfers.Outgoing.{Outgoing, open_outgoing, close}

-- What goes out: a packet, a message, the progress of a transfer in bytes of bytes, the prompt that
-- is taken back, and a transfer that leaves its slot, with what is on disk of it. `escaped` is an
-- exception that the handler lets through.
pub data Act : Type 0 where
  packet : String → Fields → Act
  tell : String → Act
  progress : ℕ → ℕ → Act
  take_back : Option ℕ → Act
  released : Text → Incoming → Act
  escaped : Act

-- `_pump_source`: run when the loop is idle, or when the time for the socket to drain is over
pub data Source : Type 0 where
  when_idle after_drain : Source

pub record Receiving : Type 0 where
  pub path : Text
  pub transfer : Incoming

pub record Files : Type 0 where
  pub incoming : Option Receiving
  pub outgoing : Option Outgoing
  pub pump_source : Option Source
  pub progress_id : Option ℕ
  pub prompt_id : Option ℕ
  pub pending_offer : Option Offer

abbrev pub idle_files : Files
idle_files = record {
  incoming = none;
  outgoing = none;
  pump_source = none;
  progress_id = none;
  prompt_id = none;
  pending_offer = none;
}

abbrev pub Step : Type 0
Step = List Act × Files

-- `_cancel_remote`
abbrev pub cancel_text : Option String → String → List Act
cancel_text none reason = []
cancel_text (some id) reason =
    packet "fedoralink.file.cancel" (field "id" (str id) (field "reason" (str reason) end)) ∷ []

unfoldable pub cancel_remote : Json → String → List Act
cancel_remote id reason = cancel_text (as_text id) reason

-- `body.get("id") == transfer.id`
abbrev pub is_text : Option String → String → Bool
is_text none id = false
is_text (some given) id = str_eq given id

unfoldable pub is_for : Fields → String → Bool
is_for body id = is_text (as_str (get "id" body)) id

-- `_show_progress`: `shown` is what `show_progress` makes of the last id
unfoldable pub show_progress : (Option ℕ → Option ℕ) → ℕ → ℕ → Files → Step
show_progress shown some_bytes all f =
    (progress some_bytes all ∷ [], record f { progress_id = shown f.progress_id })

-- the question, by the id of its notification; none where nobody can be asked
abbrev pub asked : Option ℕ → Offer → Files → Step
asked none offer f = (
  cancel_remote (str offer.id) "could not ask the user",
  record f { prompt_id = none; pending_offer = none },
)
asked (some id) offer f = ([], record f { prompt_id = some id; pending_offer = some offer })

abbrev pub offered : Option ℕ → Fields → Result Offer → Files → Step
offered posted body (err e) f = (cancel_remote (get "id" body) "refused", f)
offered posted body (ok offer) f = asked posted offer f

abbrev pub offer_to_free : Option ℕ → Fields → Option Receiving → Option Offer → Files → Step
offer_to_free posted body (some t) _ f =
    (cancel_remote (get "id" body) "already receiving a file", f)
offer_to_free posted body none (some o) f =
    (cancel_remote (get "id" body) "already receiving a file", f)
offer_to_free posted body none none f = offered posted body (validate_offer body) f

-- `_on_offer`; the text of a TransferError is "refused"
unfoldable pub on_offer : Option ℕ → Fields → Files → Step
unfolding cancel_remote
on_offer posted body f = offer_to_free posted body f.incoming f.pending_offer f

abbrev pub is_accept : Option String → Bool
is_accept none = false
is_accept (some action) = str_eq action "fedoralink-accept-file"

-- the place for the file: none for an OSError or a TransferError
abbrev pub placed : (Option ℕ → Option ℕ) → Offer → Option Text → Files → Step
placed shown offer none f =
    (cancel_remote (str offer.id) "cannot receive" ++ tell "Cannot receive the file" ∷ [], f)
placed shown offer (some path) f =
    let (acts, f') = show_progress shown 0 1 (record f {
      incoming = some (record { path = path; transfer = open_incoming offer.id offer.size none });
    }) in
    (packet "fedoralink.file.accept" (field "id" (str offer.id) end) ∷ acts, f')

abbrev pub answered :
    (Option ℕ → Option ℕ) → Option Text → Option String → Option Offer → Files → Step
answered shown place action none f = ([], f)
answered shown place action (some offer) f =
    if is_accept action
    then placed shown offer place f
    else (cancel_remote (str offer.id) "declined", f)

-- `_offer_answered`
unfoldable pub offer_answered : (Option ℕ → Option ℕ) → Option Text → Option String → Files → Step
unfolding cancel_remote show_progress
offer_answered shown place action f =
    answered shown place action f.pending_offer
      (record f { prompt_id = none; pending_offer = none })

abbrev pub failed : String → Option Receiving → Files → Step
failed reason none f = (tell "Transfer failed" ∷ [], f)
failed reason (some r) f = (
  cancel_remote (str r.transfer.id) reason
      ++ released r.path (discard r.transfer) ∷ tell "Transfer failed" ∷ [],
  record f { incoming = none },
)

-- `_fail_incoming`
unfoldable pub fail_incoming : String → Files → Step
unfolding cancel_remote
fail_incoming reason f = failed reason f.incoming f

-- `body.get("data") or ""`, decoded; none for what `b64decode` raises
abbrev pub decode_text : (String → Option Bytes) → Option String → Option Bytes
decode_text b64decode none = none
decode_text b64decode (some s) = b64decode s

unfoldable pub chunk_data : (String → Option Bytes) → Json → Option Bytes
chunk_data b64decode v = if truthy v then decode_text b64decode (as_str v) else b64decode ""

abbrev pub wrote :
    (Option ℕ → Option ℕ) → Bool → Receiving → Reply (Unit {0}) × Incoming → Files → Step
wrote shown writes r (error e, t) f = fail_incoming "chunk refused" f
wrote shown writes r (done _, t) f =
    if writes
    then show_progress shown t.received t.size
        (record f { incoming = some (record r { transfer = t }) })
    else (escaped ∷ [], f)

abbrev pub decoded : (Option ℕ → Option ℕ) → Bool → Json → Receiving → Option Bytes → Files → Step
decoded shown writes seq r none f = fail_incoming "chunk was not valid base64" f
decoded shown writes seq r (some data_) f =
    wrote shown writes r (write_chunk seq data_ r.transfer) f

abbrev pub chunk_for :
    (Option ℕ → Option ℕ)
    → (String → Option Bytes)
    → Bool
    → Fields
    → Option Receiving
    → Files
    → Step
chunk_for shown b64decode writes body none f = ([], f)
chunk_for shown b64decode writes body (some r) f =
    if is_for body r.transfer.id
    then decoded shown writes (get "seq" body) r (chunk_data b64decode (get "data" body)) f
    else ([], f)

-- `_on_chunk`; where `writes` is false the disk refuses the bytes, with an OSError
unfoldable pub on_chunk :
    (Option ℕ → Option ℕ) → (String → Option Bytes) → Bool → Fields → Files → Step
unfolding is_for chunk_data fail_incoming show_progress
on_chunk shown b64decode writes body f = chunk_for shown b64decode writes body f.incoming f

abbrev pub ended : Receiving → Reply (Unit {0}) × Incoming → Files → Step
ended r (done _, t) f = (released r.path t ∷ tell "File received" ∷ [], f)
ended r (error e, t) f = (released r.path t ∷ tell "Transfer failed" ∷ [], f)

abbrev pub done_for : Hashing → Saving → Fields → Option Receiving → Files → Step
done_for h saving body none f = ([], f)
done_for h saving body (some r) f =
    if is_for body r.transfer.id
    then ended r (finish h saving (get "sha256" body) r.transfer) (record f { incoming = none })
    else ([], f)

-- `_on_done`
unfoldable pub on_done : Hashing → Saving → Fields → Files → Step
unfolding is_for
on_done h saving body f = done_for h saving body f.incoming f
