-- ===== src/Audio.antt =====
-- daemon/fedoralink/plugins/audio.py: `AudioPlugin`, which keeps the phone's audio on the phone.
use mathlib.Core.Path.{subst}
use text.Mathlib.Text.{starts_with}
use fedoralink.Prelude.{
  ◌≡◌, refl, String, Bool, true, false, not, Option, none, some, List, [], ◌∷◌, str_eq, ◌||◌,
  if◌then◌else◌, Bool-cases, inl, inr,
}
use fedoralink.Framing.Codec.{All}

pub record Audio : Type 0 where
  pub has_bus : Bool
  pub subscribed : Bool
  pub device_path : Option String

abbrev pub idle_audio : Audio
idle_audio = record { has_bus = false; subscribed = false; device_path = none }

-- a call of DisconnectProfile, for a device and a profile
pub data Act : Type 0 where
  disconnect_profile : String → String → Act

-- `AUDIO_UUIDS`
abbrev pub audio_uuids : List String
audio_uuids =
    "0000110a-0000-1000-8000-00805f9b34fb" ∷ "0000110b-0000-1000-8000-00805f9b34fb"
    ∷ "0000111e-0000-1000-8000-00805f9b34fb" ∷ "0000111f-0000-1000-8000-00805f9b34fb"
    ∷ "00001108-0000-1000-8000-00805f9b34fb" ∷ "00001112-0000-1000-8000-00805f9b34fb" ∷ []

-- `start`, on a system bus or without one
unfoldable pub start : Bool → Audio → Audio
start connected a = if connected then record a { has_bus = true; subscribed = true } else a

-- `stop`
unfoldable pub stop : Audio → Audio
stop a = record a { has_bus = false; subscribed = false; device_path = none }

abbrev pub for_each : String → List String → List Act
for_each path [] = []
for_each path (uuid ∷ more) = disconnect_profile path uuid ∷ for_each path more

abbrev pub for_device : Option String → List Act
for_device none = []
for_device (some path) = for_each path audio_uuids

-- `_drop_audio`
unfoldable pub drop_audio : Audio → List Act
drop_audio a = if a.has_bus then for_device a.device_path else []

-- `on_connected`; `enabled` is the setting connect_phone_audio
unfoldable pub on_connected : Bool → String → Audio → List Act × Audio
unfolding drop_audio
on_connected enabled path a =
    let a' = record a { device_path = some path } in (if enabled then [] else drop_audio a', a')

-- `on_disconnected`
unfoldable pub on_disconnected : Audio → Audio
on_disconnected a = record a { device_path = none }

-- `MEDIA_TRANSPORT_IFACE in interfaces`
unfoldable pub has_interface : String → List String → Bool
has_interface wanted [] = false
has_interface wanted (name ∷ more) = str_eq name wanted || has_interface wanted more

-- what a signal carries: nothing that unpacks, or an object and its interfaces
pub data Added : Type 0 where
  malformed : Added
  object : String → List String → Added

abbrev pub added_to : Option String → Added → Audio → List Act
added_to none _ a = []
added_to (some path) malformed a = []
added_to (some path) (object object_path interfaces) a =
    if has_interface "org.bluez.MediaTransport1" interfaces
    then (if starts_with object_path path then drop_audio a else [])
    else []

-- `_on_interfaces_added`
unfoldable pub on_interfaces_added : Bool → Added → Audio → List Act
unfolding has_interface drop_audio
on_interfaces_added enabled added a = if enabled then [] else added_to a.device_path added a

pub data Event : Type 0 where
  started : Bool → Event
  connected : Bool → String → Event
  interfaces_added : Bool → Added → Event
  disconnected stopped : Event

unfoldable pub step : Event → Audio → List Act × Audio
unfolding start on_connected on_interfaces_added on_disconnected stop
step (started bus) a = ([], start bus a)
step (connected enabled path) a = on_connected enabled path a
step (interfaces_added enabled added) a = (on_interfaces_added enabled added a, a)
step disconnected a = ([], on_disconnected a)
step stopped a = ([], stop a)

unfoldable pub run : List Event → Audio → Audio
run [] a = a
run (e ∷ es) a = run es (step e a).1

-- the phone that is connected after some events, by the events alone
unfoldable pub last_phone : List Event → Option String → Option String
last_phone [] o = o
last_phone (started _ ∷ es) o = last_phone es o
last_phone (connected _ path ∷ es) o = last_phone es (some path)
last_phone (interfaces_added _ _ ∷ es) o = last_phone es o
last_phone (disconnected ∷ es) o = last_phone es none
last_phone (stopped ∷ es) o = last_phone es none

run-device_path :
    (es : List Event) (a : Audio) → (run es a).device_path ≡ last_phone es a.device_path
unfolding run last_phone step start on_connected on_disconnected stop
run-device_path [] a = refl
run-device_path (started true ∷ es) a =
    run-device_path es (record a { has_bus = true; subscribed = true })
run-device_path (started false ∷ es) a = run-device_path es a
run-device_path (connected enabled path ∷ es) a =
    run-device_path es (record a { device_path = some path })
run-device_path (interfaces_added enabled added ∷ es) a = run-device_path es a
run-device_path (disconnected ∷ es) a = run-device_path es (record a { device_path = none })
run-device_path (stopped ∷ es) a =
    run-device_path es (record a { has_bus = false; subscribed = false; device_path = none })

-- a profile is dropped only from this phone
abbrev pub IsOf : Option String → Act → Type 0
IsOf o (disconnect_profile path _) = o ≡ some path

drop-IsOf : (a : Audio) → All (IsOf a.device_path) (drop_audio a)
unfolding drop_audio
drop-IsOf a = elim (Bool-cases a.has_bus) [ inl e ↦ rw e (go a.device_path refl) | inr e ↦ rw e tt ]
  where
    each :
        (path : String) (uuids : List String)
        → a.device_path ≡ some path
        → All (IsOf a.device_path) (for_each path uuids)
    each path [] e = tt
    each path (u ∷ us) e = (e, each path us e)

    go : (o : Option String) → a.device_path ≡ o → All (IsOf a.device_path) (for_device o)
    go none e = tt
    go (some path) e = each path audio_uuids e

-- what a step may do in answer to an event: nothing where the user wants the audio on the PC
abbrev pub wanted_off : Event → Bool
wanted_off (started _) = false
wanted_off (connected enabled _) = not enabled
wanted_off (interfaces_added enabled _) = not enabled
wanted_off disconnected = false
wanted_off stopped = false

-- an answer to the event, in which only that phone loses its audio
abbrev pub IsAnswer : Event → Option String → Act → Type 0
IsAnswer e phone act = (wanted_off e ≡ true) × IsOf phone act

answering :
    (e : Event) (o : Option String) (acts : List Act)
    → wanted_off e ≡ true
    → All (IsOf o) acts
    → All (IsAnswer e o) acts
answering e o [] w i = tt
answering e o (x ∷ xs) w (i, more) = ((w, i), answering e o xs w more)

step-IsAnswer :
    (e : Event) (a : Audio) → All (IsAnswer e (last_phone (e ∷ []) a.device_path)) (step e a).0
unfolding step on_connected on_interfaces_added last_phone
step-IsAnswer (started bus) a = tt
step-IsAnswer (connected true path) a = tt
step-IsAnswer (connected false path) a =
    answering (connected false path) (some path) _ refl
      (drop-IsOf (record a { device_path = some path }))
step-IsAnswer (interfaces_added true added) a = tt
step-IsAnswer (interfaces_added false added) a = go a.device_path added
  where
    dropped : All (IsAnswer (interfaces_added false added) a.device_path) (drop_audio a)
    dropped =
        answering (interfaces_added false added) a.device_path (drop_audio a) refl (drop-IsOf a)

    go :
        (o : Option String) (x : Added)
        → All (IsAnswer (interfaces_added false added) a.device_path) (added_to o x a)
    go none x = tt
    go (some path) malformed = tt
    go (some path) (object object_path interfaces) =
        elim (Bool-cases (has_interface "org.bluez.MediaTransport1" interfaces)) [
          | inl b ↦ rw b (elim (Bool-cases (starts_with object_path path)) [
            | inl c ↦ rw c dropped
            | inr c ↦ rw c tt
          ])
          | inr b ↦ rw b tt
        ]
step-IsAnswer disconnected a = tt
step-IsAnswer stopped a = tt

-- After any events from the start of the plugin on, whatever happens next: a profile is dropped only
-- in answer to an event at which the user does not want the phone's audio, and only from the phone
-- that the events so far, the last one included, have left connected.
pub run-IsAnswer :
    (es : List Event) (e : Event)
    → All (IsAnswer e (last_phone (e ∷ []) (last_phone es none))) (step e (run es idle_audio)).0
run-IsAnswer es e =
    subst (λ o. All (IsAnswer e (last_phone (e ∷ []) o)) (step e (run es idle_audio)).0)
      (run-device_path es idle_audio) (step-IsAnswer e (run es idle_audio))
