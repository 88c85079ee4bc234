-- ===== src/Daemon/Dispatch.antt =====
-- daemon/fedoralink/daemon.py: what an inbound packet may do. A device name that is no text is
-- taken for none, and a body is an object.
use fedoralink.Prelude.{
  ℕ, String, Bool, true, false, not, ◌&&◌, Option, none, some, List, [], ◌∷◌, ◌++◌, str_eq, leb,
  if◌then◌else◌,
}
use fedoralink.Json.{
  Json, null, bool, int, negsuc, float, str, arr, obj, Fields, get, as_text, as_str,
}
use fedoralink.Auth.{Primitives}
use fedoralink.Daemon.{
  Daemon, World, Effect, state_changed, handed, wrote, emit, noticed, identity_type, auth_type,
  drop_connection,
}
use fedoralink.Daemon.Gatekeeper.{begin, on_auth_packet}
use fedoralink.Plugins.Battery
use fedoralink.Plugins.Clipboard.{Write}
use fedoralink.Plugins.Clipboard
use fedoralink.Plugins.Media

-- `isinstance(version, int) and version >= MIN_PROTOCOL_VERSION`
unfoldable pub is_new_enough : Json → Bool
is_new_enough (int version) = leb 2 version
is_new_enough null = false
is_new_enough (bool _) = false
is_new_enough (negsuc _) = false
is_new_enough (float _) = false
is_new_enough (str _) = false
is_new_enough (arr _) = false
is_new_enough (obj _) = false

abbrev pub named : Option String → Daemon → Daemon
named none d = d
named (some name) d = emit state_changed (record d { device_name = name })

abbrev pub battery_packet : Fields → Daemon → Daemon
battery_packet body d =
    let (notices, battery) = Battery.on_packet d.config body d.battery in
    record d { battery = battery; out = d.out ++ noticed notices }

abbrev pub written : List Write → List Effect
written [] = []
written (w ∷ ws) = wrote w ∷ written ws

abbrev pub clipboard_packet : Bool → Fields → Daemon → Daemon
clipboard_packet bridge body d =
    let (writes, clipboard) = Clipboard.on_packet bridge body d.clipboard in
    record d { clipboard = clipboard; out = d.out ++ written writes }

abbrev pub media_packet : Fields → Daemon → Daemon
media_packet body d =
    let (shown, media) = Media.on_packet body d.media in
    record d { media = media; out = d.out ++ (if shown then state_changed ∷ [] else []) }

-- the types of the plugins that `handed` stands for
abbrev pub has_other_handler : String → Bool
has_other_handler t =
    if str_eq t "fedoralink.notification"
    then true
    else if str_eq t "fedoralink.notification.dismiss"
    then true
    else if str_eq t "fedoralink.notification.action"
    then true
    else if str_eq t "fedoralink.ping"
    then true
    else if str_eq t "fedoralink.input"
    then true
    else if str_eq t "fedoralink.file.offer"
    then true
    else if str_eq t "fedoralink.file.accept"
    then true
    else if str_eq t "fedoralink.file.chunk"
    then true
    else if str_eq t "fedoralink.file.done"
    then true
    else str_eq t "fedoralink.file.cancel"

module _ (prim : Primitives) (digits : List ℕ → String) where
  -- `_on_identity`
  unfoldable pub on_identity : World → Fields → Daemon → Daemon
  unfolding emit drop_connection begin
  on_identity w body d =
      let d1 = named (as_text (get "deviceName" body)) d in
      if is_new_enough (get "protocolVersion" body)
      then begin prim digits w (get "deviceId" body) d1.device_name
          (record d1 { peer_device_id = as_str (get "deviceId" body) })
      else drop_connection w d1

  -- the plugins in `_routes`
  unfoldable pub route : World → String → Fields → Daemon → Daemon
  unfolding emit on_auth_packet
  route w t body d =
      if str_eq t auth_type
      then on_auth_packet prim digits w body d
      else if str_eq t "fedoralink.battery"
      then battery_packet body d
      else if str_eq t "fedoralink.clipboard"
      then clipboard_packet w.bridge body d
      else if str_eq t "fedoralink.media"
      then media_packet body d
      else if has_other_handler t
      then emit (handed t body) d
      else d

  -- `_on_packet`
  unfoldable pub on_packet : World → String → Fields → Daemon → Daemon
  unfolding on_identity route
  on_packet w t body d =
      if str_eq t identity_type
      then on_identity w body d
      else if not d.authenticated && not (str_eq t auth_type)
      then d
      else route w t body d
