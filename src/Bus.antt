-- ===== src/Bus.antt =====
-- daemon/fedoralink/dbus_service.py: `DBusService`, the daemon on the session bus, and the shell's
-- bridge for the clipboard. Gio's calls are acts.
pub mod Bridge
pub mod Calls
pub mod Guard
use fedoralink.Prelude.{
  ℕ, ◌≡◌, refl, String, Bool, true, false, Option, none, some, List, [], ◌∷◌, ◌++◌, str_eq,
  if◌then◌else◌, is_some,
}
use fedoralink.Plugins.Battery.{Battery}
use fedoralink.Plugins.Media.{Media}
use fedoralink.Upgrade.{Tcp}
use fedoralink.Daemon.{Daemon}

-- a `GLib.Variant` of a property; a level is none for -1
pub data Variant : Type 0 where
  flag : Bool → Variant
  text : String → Variant
  level : Option ℕ → Variant

-- `_handle_get_property`
unfoldable pub get_property : Daemon → String → Option Variant
get_property d prop =
    if str_eq prop "Connected"
    then some (flag d.connected)
    else if str_eq prop "Authenticated"
    then some (flag d.authenticated)
    else if str_eq prop "DeviceName"
    then some (text d.device_name)
    else if str_eq prop "BatteryLevel"
    then some (level d.battery.level)
    else if str_eq prop "BatteryCharging"
    then some (flag d.battery.charging)
    else if str_eq prop "OnLan"
    then some (flag (is_some d.tcp.link))
    else if str_eq prop "MediaHasSession"
    then some (flag d.media.has_session)
    else if str_eq prop "MediaPlaying"
    then some (flag d.media.playing)
    else if str_eq prop "MediaTitle"
    then some (text d.media.title)
    else if str_eq prop "MediaArtist"
    then some (text d.media.artist)
    else none

-- the `changed` of `emit_changed`
unfoldable pub changed_properties : Daemon → List (String × Variant)
changed_properties d =
    ("Connected", flag d.connected)
    ∷ ("Authenticated", flag d.authenticated)
    ∷ ("DeviceName", text d.device_name)
    ∷ ("BatteryLevel", level d.battery.level)
    ∷ ("BatteryCharging", flag d.battery.charging)
    ∷ ("OnLan", flag (is_some d.tcp.link))
    ∷ ("MediaHasSession", flag d.media.has_session)
    ∷ ("MediaPlaying", flag d.media.playing)
    ∷ ("MediaTitle", text d.media.title)
    ∷ ("MediaArtist", text d.media.artist)
    ∷ []

-- what a list of properties says of a name
unfoldable pub find_property : String → List (String × Variant) → Option Variant
find_property prop [] = none
find_property prop ((name, v) ∷ more) = if str_eq prop name then some v else find_property prop more

-- The shell is told of every property what it would read, and of no other.
pub find_property-changed_properties :
    (d : Daemon) (prop : String) → find_property prop (changed_properties d) ≡ get_property d prop
unfolding find_property changed_properties get_property
find_property-changed_properties d prop = refl

-- The signals, each with the name it is sent to, or to everybody; and a call of `shutdown`.
pub data Act : Type 0 where
  clipboard_changed : Option String → String → Act
  reply_requested : Option String → String → String → Act
  properties_changed : List (String × Variant) → Act
  shutdown : Act

-- `watched` is the name behind `_bridge_watch_id`.
pub record Service : Type 0 where
  pub has_bus : Bool
  pub registered : Bool
  pub owned : Bool
  pub clipboard_bridge_active : Bool
  pub bridge_sender : Option String
  pub watched : Option String

abbrev pub no_service : Service
no_service = record {
  has_bus = false;
  registered = false;
  owned = false;
  clipboard_bridge_active = false;
  bridge_sender = none;
  watched = none;
}

-- `start`
unfoldable pub start : Service → Service
start s = record s { owned = true }

-- `_on_bus_acquired`
unfoldable pub on_bus_acquired : Service → Service
on_bus_acquired s = record s { has_bus = true; registered = true }

-- `_on_name_lost`
unfoldable pub on_name_lost : Service → List Act × Service
on_name_lost s = (shutdown ∷ [], s)

-- `_clear_bridge_watch`
unfoldable pub clear_bridge_watch : Service → Service
clear_bridge_watch s = record s { watched = none }

-- `stop`
unfoldable pub stop : Service → Service
unfolding clear_bridge_watch
stop s =
    let s' = record (clear_bridge_watch s) { clipboard_bridge_active = false; owned = false } in
    if s.has_bus then record s' { registered = false } else s'

-- `_set_bridge`
unfoldable pub set_bridge : String → Bool → Service → Service
unfolding clear_bridge_watch
set_bridge sender active s =
    let s' = record (clear_bridge_watch s) {
      clipboard_bridge_active = active;
      bridge_sender = if active then some sender else none;
    } in
    if active then (if s'.has_bus then record s' { watched = some sender } else s') else s'

-- `_on_bridge_vanished`
unfoldable pub on_bridge_vanished : Service → Service
on_bridge_vanished s = record s { clipboard_bridge_active = false; bridge_sender = none }

-- `emit_clipboard`, `emit_reply_requested` and `emit_changed`
unfoldable pub emit_clipboard : String → Service → List Act
emit_clipboard content s = if s.has_bus then clipboard_changed s.bridge_sender content ∷ [] else []

unfoldable pub emit_reply_requested : String → String → Service → List Act
emit_reply_requested key title s =
    if s.has_bus then reply_requested s.bridge_sender key title ∷ [] else []

unfoldable pub emit_changed : Daemon → Service → List Act
unfolding changed_properties
emit_changed d s = if s.has_bus then properties_changed (changed_properties d) ∷ [] else []

-- A method reaches `_handle_method_call` only while the object is registered, and Gio reports that
-- a name has vanished only for the name that is watched.
pub data Event : Type 0 where
  started acquired lost stopped : Event
  called : String → Bool → Event
  vanished : String → Event

abbrev pub if_watched : Option String → String → Service → Service
if_watched none name s = s
if_watched (some watched) name s = if str_eq watched name then on_bridge_vanished s else s

unfoldable pub step : Event → Service → Service
unfolding start on_bus_acquired on_name_lost stop set_bridge on_bridge_vanished
step started s = start s
step acquired s = on_bus_acquired s
step lost s = (on_name_lost s).1
step stopped s = stop s
step (called sender active) s = if s.registered then set_bridge sender active s else s
step (vanished name) s = if_watched s.watched name s

unfoldable pub run : List Event → Service → Service
run [] s = s
run (e ∷ es) s = run es (step e s)
