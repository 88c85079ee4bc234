-- ===== src/Devices.antt =====
-- daemon/fedoralink/devices.py: the trust store. `known` is `_devices`, and `file` is what stands
-- in devices.json.
pub mod Trust
use fedoralink.Prelude.{
  String, Bool, true, false, ◌&&◌, Option, none, some, List, [], ◌∷◌, str_eq, is_some,
  if◌then◌else◌,
}
use fedoralink.Json.{
  Json, null, bool, int, negsuc, float, str, arr, obj, Fields, end, field, get, contains, truthy,
  as_str, as_fields,
}
use fedoralink.Json.Sorting.{sort_keys}
use fedoralink.Config.{put}

-- What reading the file can come to; `not_text` is the UnicodeDecodeError of `read_text`.
pub data StoreFile : Type 0 where
  missing unreadable not_text not_json : StoreFile
  content : Json → StoreFile

pub record DeviceStore : Type 0 where
  pub known : Fields
  pub file : StoreFile

-- `isinstance(value, dict) and isinstance(value.get("secret"), str)`
abbrev secret_in : Option Fields → Option String
secret_in none = none
secret_in (some entry) = as_str (get "secret" entry)

unfoldable pub entry_secret : Json → Option String
entry_secret v = secret_in (as_fields v)

unfoldable pub keep_usable : Fields → Fields
keep_usable end = end
keep_usable (field k v rest) =
    let kept = keep_usable rest in if is_some (entry_secret v) then field k v kept else kept

abbrev pub devices_in : Option Fields → Fields
devices_in none = end
devices_in (some parsed) = keep_usable parsed

-- `load`; `none` is an exception that it lets through
unfoldable pub load : StoreFile → Option DeviceStore
load missing = some (record { known = end; file = missing })
load unreadable = some (record { known = end; file = unreadable })
load not_text = none
load not_json = some (record { known = end; file = not_json })
load (content v) = some (record { known = devices_in (as_fields v); file = content v })

-- `save`: the rename replaces the file, its keys in order, or an OSError leaves the old one
unfoldable pub save : Bool → DeviceStore → Bool × DeviceStore
unfolding sort_keys
save true s = (true, record s { file = content (sort_keys (obj s.known)) })
save false s = (false, s)

-- `secret_for`: `entry["secret"]`, of an entry that `load` or `trust` put there
unfoldable pub secret_for : String → DeviceStore → Option String
unfolding entry_secret
secret_for device_id s = entry_secret (get device_id s.known)

unfoldable pub is_trusted : String → DeviceStore → Bool
unfolding secret_for
is_trusted device_id s = is_some (secret_for device_id s)

abbrev entry : String → String → Json
entry name secret = obj (field "name" (str name) (field "secret" (str secret) end))

-- `trust`: false is the OSError of `save`
unfoldable pub trust : Bool → String → String → String → DeviceStore → Bool × DeviceStore
unfolding save put
trust disk device_id name secret s =
    save disk (record s { known = put device_id (entry name secret) s.known })

-- `_devices.pop`
unfoldable pub remove : String → Fields → Fields
remove k end = end
remove k (field j v rest) = let kept = remove k rest in if str_eq j k then kept else field j v kept

-- What `revoke` comes to: no such device, the device is gone, or the OSError of `save`.
pub data Revoked : Type 0 where
  unknown gone not_saved : Revoked

abbrev pub of_save : Bool × DeviceStore → Revoked × DeviceStore
of_save (true, s) = (gone, s)
of_save (false, s) = (not_saved, s)

unfoldable pub revoke : Bool → String → DeviceStore → Revoked × DeviceStore
unfolding save remove
revoke disk device_id s =
    if contains device_id s.known
    then of_save (save disk (record s { known = remove device_id s.known }))
    else (unknown, s)

-- `known_devices`, the ids in order
unfoldable pub known_devices : Fields → List String
known_devices end = []
known_devices (field k v rest) = k ∷ known_devices rest
