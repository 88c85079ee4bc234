-- ===== src/Bus/Calls.antt =====
-- daemon/fedoralink/dbus_service.py: `_handle_method_call`, and daemon/fedoralink/daemon.py:
-- `try_reconnect`, with the parts of the daemon that the calls reach.
use fedoralink.Prelude.{
  ℕ, String, Bool, true, false, not, ◌&&◌, ◌||◌, Option, none, some, List, [], ◌∷◌, str_eq,
  if◌then◌else◌,
}
use fedoralink.Json.{str, Fields, end, field}
use fedoralink.Devices.{known_devices}
use fedoralink.Notification.{Request, dismissal, action, reply_text, reply_box, answer}
use fedoralink.Notification
use fedoralink.Plugins.Clipboard.{Write, to_phone, to_shell, to_wl_copy}
use fedoralink.Plugins.Clipboard
use fedoralink.Plugins.Media
use fedoralink.Daemon.{Daemon, World, send}
use fedoralink.Daemon.Forget.{forget_devices}
use fedoralink.Files.{Files, Act}
use fedoralink.Files
use fedoralink.Files.Pump.{Found, send_file, cancel}
use fedoralink.Alert
use fedoralink.Bus.{Service, set_bridge}

-- an object of BlueZ with a Device1 interface
pub record BondedDevice : Type 0 where
  pub path : String
  pub paired : Bool
  pub uuids : List String

abbrev pub advertised : (String → String) → String → List String → Bool
advertised lower wanted [] = false
advertised lower wanted (uuid ∷ more) =
    str_eq (lower uuid) (lower wanted) || advertised lower wanted more

-- the loop of `try_reconnect`: the paths whose ConnectProfile is called
unfoldable pub candidates : (String → String) → String → List BondedDevice → List String
candidates lower service_uuid [] = []
candidates lower service_uuid (d ∷ more) =
    let rest = candidates lower service_uuid more in
    if d.paired && advertised lower service_uuid d.uuids then d.path ∷ rest else rest

abbrev pub listed : (String → String) → String → Option (List BondedDevice) → List String
listed lower service_uuid none = []
listed lower service_uuid (some objects) = candidates lower service_uuid objects

-- `try_reconnect`; the objects are none where there is no system bus, or the call fails
unfoldable pub try_reconnect :
    (String → String) → String → Option (List BondedDevice) → Daemon → List String
unfolding candidates
try_reconnect lower service_uuid objects d =
    if d.connected then [] else listed lower service_uuid objects

-- `_reconnect_tick`
unfoldable pub reconnect_tick :
    (String → String) → String → Option (List BondedDevice) → Daemon → List String
unfolding try_reconnect
reconnect_tick lower service_uuid objects d =
    if not d.connected then try_reconnect lower service_uuid objects d else []

pub record Desk : Type 0 where
  pub daemon : Daemon
  pub files : Files
  pub service : Service

-- the methods, with their arguments as the interface types them; a file comes with the id that is
-- drawn, its name and what is found under the path
pub data Method : Type 0 where
  ping stop_ringing send_clipboard cancel_transfer reconnect forget list_devices : Method
  set_clipboard : String → Bool → Method
  sends_file : String → String → Found → Method
  media_command : String → Method
  send_reply : String → String → Method
  set_clipboard_bridge : Bool → Method
  other : String → Method

pub data Answer : Type 0 where
  nothing unknown_method : Answer
  boolean : Bool → Answer
  number : ℕ → Answer
  devices : List String → Answer

abbrev pub Outbound : Type 0
Outbound = List (String × Fields)

-- the packets among what the plugins do
unfoldable pub of_ring : List Alert.Act → Outbound
of_ring [] = []
of_ring (Alert.packet t body ∷ acts) = (t, body) ∷ of_ring acts
of_ring (Alert.told _ _ ∷ acts) = of_ring acts

unfoldable pub of_files : List Act → Outbound
of_files [] = []
of_files (Files.packet t body ∷ acts) = (t, body) ∷ of_files acts
of_files (Files.tell _ ∷ acts) = of_files acts
of_files (Files.progress _ _ ∷ acts) = of_files acts
of_files (Files.take_back _ ∷ acts) = of_files acts
of_files (Files.released _ _ ∷ acts) = of_files acts
of_files (Files.escaped ∷ acts) = of_files acts

unfoldable pub of_clipboard : List Write → Outbound
of_clipboard [] = []
of_clipboard (to_phone content ∷ more) =
    ("fedoralink.clipboard", field "content" (str content) end) ∷ of_clipboard more
of_clipboard (to_shell _ ∷ more) = of_clipboard more
of_clipboard (to_wl_copy _ ∷ more) = of_clipboard more

unfoldable pub of_media : Option String → Outbound
of_media none = []
of_media (some wanted) = ("fedoralink.media", field "action" (str wanted) end) ∷ []

unfoldable pub of_reply : List Request → Outbound
of_reply [] = []
of_reply (reply_text key content ∷ more) =
    (
      "fedoralink.notification.action",
      field "key" (str key) (field "action" (str "reply") (field "text" (str content) end)),
    )
    ∷ of_reply more
of_reply (dismissal _ ∷ more) = of_reply more
of_reply (action _ _ ∷ more) = of_reply more
of_reply (reply_box _ _ ∷ more) = of_reply more
of_reply (answer _ _ ∷ more) = of_reply more

-- `send` of the daemon, packet by packet
unfoldable pub send_all : Outbound → Daemon → Daemon
unfolding send
send_all [] d = d
send_all ((t, body) ∷ more) d = send_all more (send t body d).1

abbrev pub sends : Outbound → Desk → Desk
sends packets k = record k { daemon = send_all packets k.daemon }

-- Of a call: its answer, the devices that BlueZ is asked to connect, and the state after it.
pub record Called : Type 0 where
  pub answer : Answer
  pub connecting : List String
  pub desk : Desk

abbrev pub answered : Answer → Desk → Called
answered a k = record { answer = a; connecting = []; desk = k }

module _ (bytes : String → ℕ) (lower : String → String) (service_uuid : String) where
  -- `_handle_method_call`
  unfoldable pub method_call : World → Option (List BondedDevice) → String → Method → Desk → Called
  unfolding Alert.ask_phone of_ring of_files of_clipboard of_media of_reply send_all try_reconnect
  method_call w objects sender ping k = answered nothing (sends (of_ring (Alert.ask_phone true)) k)
  method_call w objects sender stop_ringing k =
      answered nothing (sends (of_ring (Alert.ask_phone false)) k)
  method_call w objects sender send_clipboard k =
      answered nothing (sends (of_clipboard (Clipboard.send_current k.daemon.clipboard).0) k)
  method_call w objects sender (set_clipboard content force) k =
      let (writes, seen) = Clipboard.set_from_shell bytes content force k.daemon.clipboard in
      answered nothing
        (sends (of_clipboard writes) (record k { daemon = record k.daemon { clipboard = seen } }))
  method_call w objects sender (sends_file id name found) k =
      let (taken, step) = send_file k.daemon.authenticated id name found k.files in
      answered (boolean taken) (sends (of_files step.0) (record k { files = step.1 }))
  method_call w objects sender cancel_transfer k =
      let (cancelled, step) = cancel k.files in
      answered (boolean cancelled) (sends (of_files step.0) (record k { files = step.1 }))
  method_call w objects sender (media_command wanted) k =
      answered nothing (sends (of_media (Media.command wanted)) k)
  method_call w objects sender (send_reply key content) k =
      answered nothing (sends (of_reply (Notification.reply key content k.daemon.notes)) k)
  method_call w objects sender (set_clipboard_bridge active) k =
      answered nothing (record k { service = set_bridge sender active k.service })
  method_call w objects sender reconnect k = record {
    answer = nothing;
    connecting = try_reconnect lower service_uuid objects k.daemon;
    desk = k;
  }
  method_call w objects sender forget k =
      let (count, d) = forget_devices w k.daemon in
      answered (number count) (record k { daemon = d })
  method_call w objects sender list_devices k =
      answered (devices (known_devices k.daemon.store.known)) k
  method_call w objects sender (other _) k = answered unknown_method k
