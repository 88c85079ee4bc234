-- ===== src/Config.antt =====
-- daemon/fedoralink/config.py: the defaults, `merge` and `load`.
pub mod Merge
use fedoralink.Prelude.{
  ℕ, String, Bool, true, false, Option, none, some, str_eq, leb, if◌then◌else◌,
}
use fedoralink.Json.{
  Json, null, bool, int, negsuc, float, str, arr, obj, Fields, end, field, get, contains,
}

abbrev pub defaults : Fields
defaults = field "battery_low_warning" (bool true) (
    field "battery_low_threshold" (int 15) (
      field "lock_on_disconnect" (bool false) (
        field "lock_on_disconnect_grace_seconds" (int 30) (
          field "pc_ring_seconds" (int 10) (
            field "connect_phone_audio" (bool false)
              (field "lan_transport" (bool true) (field "remote_input" (bool true) end)))))))

-- `resolved[key] = value`
unfoldable pub put : String → Json → Fields → Fields
put k v end = field k v end
put k v (field j w rest) = if str_eq j k then field j v rest else field j w (put k v rest)

-- whether a value has the type of its default: true or false, or an integer that is not negative
unfoldable pub is_usable : Json → Json → Bool
is_usable (bool _) (bool _) = true
is_usable (bool _) _ = false
is_usable (int _) (int _) = true
is_usable (int _) _ = false
is_usable _ _ = true

-- one turn of the loop over the overrides
unfoldable pub override : String → Json → Fields → Fields
override key value resolved =
    if contains key defaults
    then (if is_usable (get key defaults) value then put key value resolved else resolved)
    else resolved

-- the loop, over the items of a dict: what is given of a key is given once
unfoldable pub override_all : Fields → Fields → Fields
override_all end resolved = resolved
override_all (field key value rest) resolved = override_all rest (override key value resolved)

-- `not 0 <= threshold <= 100`
abbrev pub in_percent : Json → Bool
in_percent (int t) = leb t 100
in_percent _ = false

abbrev pub threshold_key : String
threshold_key = "battery_low_threshold"

unfoldable pub check_threshold : Fields → Fields
check_threshold resolved =
    if in_percent (get threshold_key resolved)
    then resolved
    else put threshold_key (get threshold_key defaults) resolved

unfoldable pub merge : Json → Fields
unfolding override_all check_threshold
merge (obj overrides) = check_threshold (override_all overrides defaults)
merge _ = defaults

-- What reading and parsing a file of settings can come to. `not_text` is the UnicodeDecodeError
-- of `read_text`, and `not_json` the JSONDecodeError.
pub data FileRead : Type 0 where
  missing unreadable not_text not_json : FileRead
  parsed : Json → FileRead

-- `load`; `none` is an exception that it lets through
unfoldable pub load : FileRead → Option Fields
load missing = some defaults
load unreadable = some defaults
load not_text = none
load not_json = some defaults
load (parsed v) = some (merge v)
