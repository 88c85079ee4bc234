-- ===== src/Daemon.antt =====
-- daemon/fedoralink/daemon.py: the state, the packets out, the two links coming and going, and the
-- LAN offer. A close inside `send` stands for the event of that close behind it.
pub mod Gatekeeper
pub mod Dispatch
pub mod Authentication
pub mod Ending
pub mod Forget
pub mod Packets
pub mod Guarded
pub mod Strangers
use fedoralink.Prelude.{
  ℕ, String, Bool, true, false, not, ◌&&◌, ◌||◌, Option, none, some, List, [], ◌∷◌, ◌++◌, str_eq,
  if◌then◌else◌, is_some, is_empty,
}
use fedoralink.Json.{Json, str, int, arr, Items, nil, cons, Fields, end, field, get, truthy}
use fedoralink.Framing.{Bytes}
use fedoralink.Auth.{Primitives}
use fedoralink.Session.{RecordCrypto}
use fedoralink.Devices.{DeviceStore}
use fedoralink.Notification.{Notifications, cancel_ask, clear}
use fedoralink.Upgrade.{Tcp, idle_tcp, start, stop, new_offer}
use fedoralink.Upgrade
use fedoralink.Plugins.Battery.{Battery, Notice, changed, low}
use fedoralink.Plugins.Battery
use fedoralink.Plugins.Clipboard
use fedoralink.Plugins.Media.{Media}
use fedoralink.Plugins.Media
use fedoralink.Plugins.Presence.{Presence}
use fedoralink.Plugins.Presence

-- `AuthPlugin`, less its store
pub record Gate : Type 0 where
  pub peer_id : Option String
  pub peer_name : String
  pub our_nonce : Option String
  pub pending_secret : Option String
  pub prompt_id : Option ℕ

abbrev pub no_peer : Gate
no_peer = record {
  peer_id = none;
  peer_name = "";
  our_nonce = none;
  pending_secret = none;
  prompt_id = none;
}

-- What goes out: a packet, on the LAN link or on Bluetooth, with its type and body; the signal
-- of a changed state; a warning of a low battery; and the lock. `escaped` is an exception that
-- the handler lets through, `wrote` is what the clipboard's plugin does, and `handed` is a packet
-- passed on to the plugin of its type: notifications, files, ping or remote input.
pub data Effect : Type 0 where
  packet : Bool → String → Fields → Effect
  state_changed locked escaped : Effect
  handed : String → Fields → Effect
  wrote : Clipboard.Write → Effect
  battery_low : ℕ → Effect

-- `rfcomm` says that `transport.connection` is set; `out` is what went out so far.
pub record Daemon : Type 0 where
  pub config : Fields
  pub connected : Bool
  pub authenticated : Bool
  pub session_was_authenticated : Bool
  pub device_name : String
  pub peer_device_id : Option String
  pub rfcomm : Bool
  pub tcp : Tcp
  pub gate : Gate
  pub store : DeviceStore
  pub notes : Notifications
  pub battery : Battery
  pub clipboard : Option String
  pub media : Media
  pub presence : Presence
  pub out : List Effect

-- What the rest of the machine answers while a handler runs: random bytes, the id of a posted
-- question, CloseNotification, the port of a listening socket, the LAN addresses, the disk,
-- whether the shell's bridge is up, and the names of this desktop.
pub record World : Type 0 where
  pub secret_bytes : Bytes
  pub nonce_bytes : Bytes
  pub offer_bytes : Bytes
  pub posted : Option ℕ
  pub closes : ℕ → Bool
  pub bound : Option ℕ
  pub hosts : Items
  pub disk : Bool
  pub bridge : Bool
  pub host_name : String
  pub desktop_id : String

abbrev pub identity_type : String
identity_type = "fedoralink.identity"

abbrev pub auth_type : String
auth_type = "fedoralink.auth"

abbrev pub upgrade_type : String
upgrade_type = "fedoralink.upgrade"

unfoldable pub emit : Effect → Daemon → Daemon
emit e d = record d { out = d.out ++ e ∷ [] }

-- `packet_type in _PRE_AUTH_TYPES`
unfoldable pub is_pre_auth : String → Bool
is_pre_auth t = str_eq t identity_type || str_eq t auth_type

-- `send`: whether the packet was taken
unfoldable pub send : String → Fields → Daemon → Bool × Daemon
unfolding emit is_pre_auth
send t body d =
    if not d.authenticated && not (is_pre_auth t)
    then (false, d)
    else if is_some d.tcp.link
    then (true, emit (packet true t body) d)
    else if d.rfcomm
    then (true, emit (packet false t body) d)
    else (false, d)

-- `tcp.stop`, which reports the closed link with `_on_tcp_disconnected`. No offer comes of that:
-- the daemon is not authenticated at the one call, and has no LAN address at the other.
unfoldable pub tcp_stop : Daemon → Daemon
unfolding emit stop
tcp_stop d =
    if is_some d.tcp.link
    then emit state_changed (record d { tcp = stop d.tcp })
    else record d { tcp = stop d.tcp }

-- `AuthPlugin._reset`
unfoldable pub reset : World → Daemon → Daemon
reset w d = record d {
  gate = no_peer;
  notes = cancel_ask (cancel_closes d.gate.prompt_id) d.gate.prompt_id d.notes;
}
  where
    cancel_closes : Option ℕ → Bool
    cancel_closes none = true
    cancel_closes (some id) = w.closes id

abbrev pub noticed : List Notice → List Effect
noticed [] = []
noticed (changed ∷ more) = state_changed ∷ noticed more
noticed (low level ∷ more) = battery_low level ∷ noticed more

-- the `on_disconnected` of the plugins that have one, in the order of `plugins`
unfoldable pub plugins_disconnected : World → Daemon → Daemon
unfolding reset
plugins_disconnected w d =
    let (notices, battery) = Battery.on_disconnected d.battery in
    let d1 = record d {
      battery = battery;
      notes = clear w.closes d.notes;
      clipboard = Clipboard.on_disconnected d.clipboard;
      out = d.out ++ noticed notices;
    } in
    let d2 = reset w d1 in
    let (shown, media) = Media.clear d2.media in
    let (locks, presence) =
      Presence.on_disconnected d2.config d2.session_was_authenticated d2.presence in
    record d2 {
      media = media;
      presence = presence;
      out =
          d2.out
          ++ ((if shown then state_changed ∷ [] else []) ++ (if locks then locked ∷ [] else []));
    }

-- `_on_disconnected`
unfoldable pub on_disconnected : World → Daemon → Daemon
unfolding tcp_stop plugins_disconnected emit
on_disconnected w d = emit state_changed (
    plugins_disconnected w (
      let d' =
        tcp_stop (record d { connected = false; authenticated = false; peer_device_id = none }) in
      record d' {
        device_name = "";
        battery = record d'.battery { level = none; charging = false };
      }))

-- `transport.disconnect`
unfoldable pub disconnect : World → Daemon → Daemon
unfolding on_disconnected
disconnect w d = if d.rfcomm then on_disconnected w (record d { rfcomm = false }) else d

-- `drop_connection`
unfoldable pub drop_connection : World → Daemon → Daemon
unfolding disconnect
drop_connection w d = disconnect w (record d { authenticated = false })

abbrev capabilities : Items
capabilities = cons (str "battery") (
    cons (str "notification") (
      cons (str "clipboard") (
        cons (str "ping") (
          cons (str "auth") (
            cons (str "media") (
              cons (str "files")
                (cons (str "presence") (cons (str "audio") (cons (str "input") nil)))))))))

abbrev identity_body : World → Fields
identity_body w = field "deviceName" (str w.host_name) (
    field "deviceType" (str "desktop") (
      field "deviceId" (str w.desktop_id)
        (field "protocolVersion" (int 2) (field "capabilities" (arr capabilities) end))))

-- `_on_connected`
unfoldable pub on_connected : World → String → Daemon → Daemon
unfolding send emit
on_connected w name d =
    let d1 = record d {
      connected = true;
      authenticated = false;
      session_was_authenticated = false;
      device_name = name;
    } in
    let (_, d2) = send identity_type (identity_body w) d1 in
    emit state_changed (record d2 { presence = Presence.on_connected d2.presence })

-- `RfcommTransport._accept`, of a socket that BlueZ hands over: it supersedes the old link
unfoldable pub accept : World → String → Daemon → Daemon
unfolding disconnect on_connected
accept w name d = on_connected w name (record (disconnect w d) { rfcomm = true })

-- `_on_tcp_connected`, behind a handshake that brought the link up
unfoldable pub on_tcp_connected : RecordCrypto → Daemon → Daemon
unfolding emit
on_tcp_connected crypto d =
    emit state_changed (record d { tcp = record d.tcp { link = some crypto } })

module _ (prim : Primitives) where
  abbrev offer_at : World → String → ℕ → Daemon → Daemon
  offer_at w device_id port d =
      let (nonce, tcp) = new_offer prim w.offer_bytes device_id d.tcp in
      (send upgrade_type
        (field "hosts" (arr w.hosts) (field "port" (int port) (field "nonce" (str nonce) end)))
        (record d { tcp = tcp })).1

  abbrev has_host : Items → Bool
  has_host nil = false
  has_host (cons _ _) = true

  abbrev offer_on : World → String → Option ℕ → Daemon → Daemon
  offer_on w device_id none d = d
  offer_on w device_id (some port) d =
      if has_host w.hosts then offer_at w device_id port d else tcp_stop d

  abbrev offer_to : World → Option String → Daemon → Daemon
  offer_to w none d = d
  offer_to w (some device_id) d =
      let (port, tcp) = start w.bound d.tcp in offer_on w device_id port (record d { tcp = tcp })

  -- `_offer_lan_upgrade`
  unfoldable pub offer_lan_upgrade : World → Daemon → Daemon
  unfolding send tcp_stop new_offer start
  offer_lan_upgrade w d =
      if truthy (get "lan_transport" d.config) then offer_to w d.peer_device_id d else d

  -- `set_authenticated(True)`, the only call of it
  unfoldable pub set_authenticated : World → Daemon → Daemon
  unfolding emit offer_lan_upgrade
  set_authenticated w d =
      if d.authenticated
      then d
      else offer_lan_upgrade w
          (emit state_changed (record d { authenticated = true; session_was_authenticated = true }))

  -- `_on_tcp_disconnected`, for a LAN link that dropped
  unfoldable pub on_tcp_disconnected : World → Daemon → Daemon
  unfolding emit offer_lan_upgrade
  on_tcp_disconnected w d =
      let d' = emit state_changed (record d { tcp = Upgrade.handle_close d.tcp }) in
      if d.authenticated then offer_lan_upgrade w d' else d'
