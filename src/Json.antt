-- ===== src/Json.antt =====
-- The values that `json.loads` returns, and what the code asks of them: `isinstance`, truth,
-- `dict.get` and `in`.
pub mod Sorting
use fedoralink.Prelude.{
  ℕ, ◌%◌, ◌^◌, String, Bool, true, false, not, Option, none, some, str_eq, ◌==◌, if◌then◌else◌,
  ◌||◌, ◌≡◌,
}

-- `int` is a Python int by its sign and size (`negsuc n` is -(n + 1)), and `float` an IEEE 754
-- double by its bit pattern. A dict has each of its keys once (`IsDict`); `Fields` alone does not say
-- so, and of a key that stands twice `get` finds the first.
mutual
  pub data Json : Type 0 where
    null : Json
    bool : Bool → Json
    int : ℕ → Json
    negsuc : ℕ → Json
    float : ℕ → Json
    str : String → Json
    arr : Items → Json
    obj : Fields → Json

  pub data Items : Type 0 where
    nil : Items
    cons : Json → Items → Items

  pub data Fields : Type 0 where
    end : Fields
    field : String → Json → Fields → Fields

-- `dict.get(key)`: None for a key that is not there, and for one that holds null.
unfoldable pub get : String → Fields → Json
get k end = null
get k (field j v rest) = if str_eq j k then v else get k rest

-- `key in dict`
unfoldable pub contains : String → Fields → Bool
contains k end = false
contains k (field j v rest) = str_eq j k || contains k rest

-- the keys of a dict: none stands twice
abbrev pub IsDict : Fields → Type 0
IsDict end = Unit
IsDict (field k v rest) = (contains k rest ≡ false) × IsDict rest

-- `bool(value)`
unfoldable pub truthy : Json → Bool
truthy null = false
truthy (bool b) = b
truthy (int n) = not (n == 0)
truthy (negsuc _) = true
truthy (float bits) = not (bits % 2 ^ 63 == 0)
truthy (str s) = not (str_eq s "")
truthy (arr nil) = false
truthy (arr (cons _ _)) = true
truthy (obj end) = false
truthy (obj (field _ _ _)) = true

-- the value, if `isinstance(value, str)`
unfoldable pub as_str : Json → Option String
as_str (str s) = some s
as_str null = none
as_str (bool _) = none
as_str (int _) = none
as_str (negsuc _) = none
as_str (float _) = none
as_str (arr _) = none
as_str (obj _) = none

-- the value, if it is a string and not empty: `isinstance(value, str) and value`
unfoldable pub as_text : Json → Option String
unfolding as_str
as_text v = elim (as_str v) [ none ↦ none | some s ↦ if str_eq s "" then none else some s ]

-- the fields, if `isinstance(value, dict)`
unfoldable pub as_fields : Json → Option Fields
as_fields (obj fs) = some fs
as_fields null = none
as_fields (bool _) = none
as_fields (int _) = none
as_fields (negsuc _) = none
as_fields (float _) = none
as_fields (arr _) = none
as_fields (str _) = none
