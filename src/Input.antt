-- ===== src/Input.antt =====
-- daemon/fedoralink/plugins/remote_input.py: `RemoteInputPlugin`, the pointer of the desktop driven
-- from the phone. The calls of the desktop portal are acts; what it answers are arguments.
pub mod Consent
pub mod Dialogs
pub mod Refusal
use fedoralink.Prelude.{
  ℕ, ◌%◌, ◌^◌, ◌+◌, String, Bool, true, false, not, Option, none, some, List, [], ◌∷◌, ◌++◌, ltb,
  leb, str_eq, ◌==◌, ◌&&◌, ◌||◌, if◌then◌else◌, is_some,
}
use fedoralink.Json.{
  Json, null, bool, int, negsuc, float, str, arr, obj, Fields, get, truthy, as_str,
}

-- the request that a subscription waits for: CreateSession, SelectDevices or Start
pub data Request : Type 0 where
  create_session : Request
  select_devices start_session : String → Request

-- calls of the portal, with the number of the subscription; pointer calls in a session; the message
-- that the trackpad is ready; the end of a session; and an exception that the handler lets through
pub data Act : Type 0 where
  call : ℕ → Request → Act
  motion : String → Json → Json → Act
  button : String → ℕ → Bool → Act
  axis : String → Json → Json → Act
  ready escaped : Act
  unsubscribe : ℕ → Act
  close : String → Act

pub record Input : Type 0 where
  pub has_bus : Bool
  pub session : Option String
  pub starting : Bool
  pub refused : Bool
  pub subscriptions : List (ℕ × Request)
  -- the number that `signal_subscribe` gives next
  pub next_id : ℕ

abbrev pub fresh_input : Input
fresh_input = record {
  has_bus = false;
  session = none;
  starting = false;
  refused = false;
  subscriptions = [];
  next_id = 1;
}

abbrev pub Step : Type 0
Step = List Act × Input

-- `_number`: the conversion of an int to a float is left out; 0x40C3880000000000 is 10000.0
unfoldable pub number : Json → Option Json
number null = none
number (bool _) = none
number (int n) = if leb n 10000 then some (int n) else none
number (negsuc n) = if ltb n 10000 then some (negsuc n) else none
number (float bits) = if leb (bits % 2 ^ 63) 4666723172467343360 then some (float bits) else none
number (str _) = none
number (arr _) = none
number (obj _) = none

-- `BUTTONS.get(value)`: a list or a dict is no key, which is an error
pub data Button : Type 0 where
  unhashable unknown : Button
  event_code : ℕ → Button

unfoldable pub button_code : Json → Button
button_code (str s) =
    if str_eq s "left"
    then event_code 272
    else if str_eq s "right"
    then event_code 273
    else if str_eq s "middle"
    then event_code 274
    else unknown
button_code (arr _) = unhashable
button_code (obj _) = unhashable
button_code null = unknown
button_code (bool _) = unknown
button_code (int _) = unknown
button_code (negsuc _) = unknown
button_code (float _) = unknown

-- `_notify`; where `accepted` is false the call raises a GLib.Error
unfoldable pub notify : Bool → Act → Input → Step
notify accepted act i =
    if i.has_bus && is_some i.session
    then (if accepted then (act ∷ [], i) else ([], record i { session = none }))
    else ([], i)

abbrev pub moved : Bool → String → Option Json → Option Json → Input → Step
moved accepted session none _ i = ([], i)
moved accepted session (some _) none i = ([], i)
moved accepted session (some dx) (some dy) i = notify accepted (motion session dx dy) i

-- `_motion`
unfoldable pub on_motion : Bool → String → Fields → Input → Step
unfolding number notify
on_motion accepted session body i =
    moved accepted session (number (get "dx" body)) (number (get "dy" body)) i

abbrev pub pressed : Bool → String → Bool → Button → Input → Step
pressed accepted session down unhashable i = (escaped ∷ [], i)
pressed accepted session down unknown i = ([], i)
pressed accepted session down (event_code n) i = notify accepted (button session n down) i

-- `_button`
unfoldable pub on_button : Bool → String → Fields → Input → Step
unfolding button_code notify
on_button accepted session body i =
    pressed accepted session (truthy (get "pressed" body)) (button_code (get "button" body)) i

-- `_number(value) or 0.0`
abbrev pub or_zero : Option Json → Json
or_zero none = float 0
or_zero (some v) = if truthy v then v else float 0

-- `_scroll`
unfoldable pub on_scroll : Bool → String → Fields → Input → Step
unfolding number notify
on_scroll accepted session body i =
    let dx = or_zero (number (get "dx" body)) in
    let dy = or_zero (number (get "dy" body)) in
    if truthy dx || truthy dy then notify accepted (axis session dx dy) i else ([], i)

-- `_call_with_response`
unfoldable pub call_with_response : Request → Input → Step
call_with_response r i = (
  call i.next_id r ∷ [],
  record i { subscriptions = i.subscriptions ++ (i.next_id, r) ∷ []; next_id = i.next_id + 1 },
)

-- `_ensure_session`, with `_create_session`
unfoldable pub ensure_session : Input → Step
unfolding call_with_response
ensure_session i =
    if not i.has_bus || (i.starting || i.refused)
    then ([], i)
    else call_with_response create_session (record i { starting = true })

abbrev pub of_kind : Bool → String → Fields → Option String → Input → Step
of_kind accepted session body none i = ([], i)
of_kind accepted session body (some kind) i =
    if str_eq kind "motion"
    then on_motion accepted session body i
    else if str_eq kind "button"
    then on_button accepted session body i
    else if str_eq kind "scroll"
    then on_scroll accepted session body i
    else ([], i)

abbrev pub in_session : Bool → Fields → Option String → Input → Step
in_session accepted body none i = ensure_session i
in_session accepted body (some session) i =
    of_kind accepted session body (as_str (get "kind" body)) i

-- `on_packet`; `enabled` is the setting remote_input
unfoldable pub on_packet : Bool → Bool → Fields → Input → Step
unfolding ensure_session on_motion on_button on_scroll
on_packet enabled accepted body i =
    if enabled then in_session accepted body i.session i else ([], i)

-- `_fail`
unfoldable pub fail : ℕ → Input → Input
fail code i =
    if code == 1
    then record i { starting = false; refused = true }
    else record i { starting = false }

-- `results.get("session_handle")`, if it is not empty
abbrev pub created : Option String → ℕ → Input → Step
created none code i = ([], fail code i)
created (some handle) code i =
    if str_eq handle "" then ([], fail code i) else call_with_response (select_devices handle) i

-- the `done` of `_create_session`, `_select_devices` and `_start`
unfoldable pub answered : Request → ℕ → Option String → Input → Step
unfolding fail call_with_response
answered create_session code handle i =
    if code == 0 then created handle code i else ([], fail code i)
answered (select_devices session) code handle i =
    if code == 0 then call_with_response (start_session session) i else ([], fail code i)
answered (start_session session) code handle i =
    if code == 0
    then (ready ∷ [], record i { starting = false; session = some session })
    else ([], fail code (record i { starting = false }))

-- the request that a subscription waits for
unfoldable pub find : ℕ → List (ℕ × Request) → Option Request
find id [] = none
find id ((n, r) ∷ more) = if n == id then some r else find id more

-- `self._subscriptions.remove`
unfoldable pub remove : ℕ → List (ℕ × Request) → List (ℕ × Request)
remove id [] = []
remove id ((n, r) ∷ more) = if n == id then more else (n, r) ∷ remove id more

abbrev pub handled : ℕ → ℕ → Option String → Option Request → Input → Step
handled id code handle none i = ([], i)
handled id code handle (some r) i =
    let (acts, i') =
      answered r code handle (record i { subscriptions = remove id i.subscriptions }) in
    (unsubscribe id ∷ acts, i')

-- the `handler` of `_call_with_response`, for a Response with this code and session_handle
unfoldable pub on_response : ℕ → ℕ → Option String → Input → Step
unfolding find remove answered
on_response id code handle i = handled id code handle (find id i.subscriptions) i

-- `_on_call_done`
unfoldable pub on_call_done : Bool → Input → Input
on_call_done accepted i = if accepted then i else record i { starting = false }

-- `on_disconnected`
unfoldable pub on_disconnected : Input → Input
on_disconnected i = record i { refused = false }

abbrev pub unsubscribed : Bool → List (ℕ × Request) → List Act
unsubscribed b [] = []
unsubscribed false (_ ∷ more) = []
unsubscribed true ((n, _) ∷ more) = unsubscribe n ∷ unsubscribed true more

abbrev pub closed : Bool → Option String → List Act
closed b none = []
closed false (some session) = []
closed true (some session) = close session ∷ []

-- `_close_session`
unfoldable pub close_session : Input → Step
close_session i = (
  unsubscribed i.has_bus i.subscriptions ++ closed i.has_bus i.session,
  record i { subscriptions = []; session = none },
)

-- `start`, on a session bus or without one
unfoldable pub start : Bool → Input → Input
start connected i = if connected then record i { has_bus = true } else i

-- `stop`
unfoldable pub stop : Input → Step
unfolding close_session
stop i = let (acts, i') = close_session i in (acts, record i' { has_bus = false })

pub data Event : Type 0 where
  started : Bool → Event
  arrived : Bool → Bool → Fields → Event
  responded : ℕ → ℕ → Option String → Event
  called : Bool → Event
  disconnected stopped : Event

unfoldable pub step : Event → Input → Step
step (started connected) i = ([], start connected i)
step (arrived enabled accepted body) i = on_packet enabled accepted body i
step (responded id code handle) i = on_response id code handle i
step (called accepted) i = ([], on_call_done accepted i)
step disconnected i = ([], on_disconnected i)
step stopped i = stop i

unfoldable pub run : List Event → Input → Input
run [] i = i
run (e ∷ es) i = run es (step e i).1
