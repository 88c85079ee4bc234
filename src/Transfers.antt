-- ===== src/Transfers.antt =====
-- daemon/fedoralink/transfers.py: names and offers. The two kinds of transfer are in
-- Transfers/Incoming.antt and Transfers/Outgoing.antt.
pub mod Naming
pub mod Incoming
pub mod Outgoing
pub mod Whole
use Prim.Native.Char.{code}
use Prim.Native.String
use mathlib.Core.List.{map, reverse}
use fedoralink.Prelude.{
  ℕ, ◌+◌, ◌*◌, String, Bool, true, false, not, ◌&&◌, ◌||◌, Option, none, some, List, [], ◌∷◌, ◌++◌,
  take, every, leb, ltb, ◌==◌, str_eq, if◌then◌else◌, is_empty,
}
use fedoralink.Json.{
  Json, null, bool, int, negsuc, float, str, arr, obj, Fields, get, as_str, as_text,
}
use fedoralink.Auth.{codes}

abbrev pub max_file_bytes : ℕ
max_file_bytes = 8 * 1024 * 1024 * 1024

abbrev pub chunk_bytes : ℕ
chunk_bytes = 32 * 1024

-- A text by its code points, where the code walks it.
abbrev pub Text : Type 0
Text = List ℕ

-- a character of [A-Za-z0-9._-]
unfoldable pub is_allowed : ℕ → Bool
is_allowed c =
    (leb b'A' c && leb c b'Z')
    || ((leb b'a' c && leb c b'z')
        || ((leb b'0' c && leb c b'9') || (c == b'.' || (c == b'_' || c == b'-'))))

-- `name.replace("\\", "/")`
abbrev pub to_slash : ℕ → ℕ
to_slash c = if c == 92 then b'/' else c

-- `rsplit("/", 1)[-1]`: `part` is what stands behind the last slash so far
unfoldable pub last_part : Text → Text → Text
last_part part [] = part
last_part part (c ∷ cs) = last_part (if c == b'/' then cs else part) cs

-- `_UNSAFE.sub("_", base)`
abbrev pub clean : ℕ → ℕ
clean c = if is_allowed c then c else b'_'

unfoldable pub lstrip : ℕ → Text → Text
lstrip b [] = []
lstrip b (c ∷ cs) = let rest = lstrip b cs in if c == b then rest else c ∷ cs

unfoldable pub rstrip : ℕ → Text → Text
rstrip b [] = []
rstrip b (c ∷ cs) = let rest = rstrip b cs in if is_empty rest && c == b then [] else c ∷ rest

abbrev pub fallback_name : Text
fallback_name = codes "received-file"

abbrev pub or_fallback : Text → Text
or_fallback [] = fallback_name
or_fallback (c ∷ cs) = c ∷ cs

-- the characters of a file name, before the cut and the fallback
unfoldable pub base_of : Text → Text
base_of name =
    let slashed = map to_slash name in lstrip b'.' (map clean (last_part slashed slashed))

unfoldable pub safe_text : Text → Text
safe_text name = or_fallback (rstrip b'_' (lstrip b'_' (take 200 (base_of name))))

abbrev name_in : Option String → Text
name_in none = fallback_name
name_in (some name) = safe_text (codes name)

-- `safe_name`
unfoldable pub safe_name : Json → Text
safe_name name = name_in (as_str name)

pub data TransferError : Type 0 where
  no_id no_size too_large no_free_name finished no_seq out_of_order too_much already_finished
        ended_early hash_mismatch not_saved :
      TransferError

pub record Offer : Type 0 where
  pub id : String
  pub name : Text
  pub size : ℕ

pub data Result {ℓ} (A : Type ℓ) : Type ℓ where
  ok : A → Result A
  err : TransferError → Result A

-- `size` as a Python int that is no bool and not negative
unfoldable pub as_size : Json → Option ℕ
as_size (int n) = some n
as_size null = none
as_size (bool _) = none
as_size (negsuc _) = none
as_size (float _) = none
as_size (str _) = none
as_size (arr _) = none
as_size (obj _) = none

abbrev pub offer_with : Json → Option String → Option ℕ → Result Offer
offer_with name none _ = err no_id
offer_with name (some id) none = err no_size
offer_with name (some id) (some size) =
    if ltb max_file_bytes size
    then err too_large
    else ok (record { id = id; name = safe_name name; size = size })

unfoldable pub validate_offer : Fields → Result Offer
unfolding as_size
validate_offer body =
    offer_with (get "name" body) (as_text (get "id" body)) (as_size (get "size" body))

-- The names that `unique_path` tries behind the first: `{stem} ({index}){suffix}`, for the indices
-- from `index` on. `taken` is `Path.exists`, and `numbered` makes the name.
unfoldable pub first_free : (Text → Bool) → (ℕ → Text) → ℕ → ℕ → Option Text
first_free taken numbered ℕ.zero index = none
first_free taken numbered (ℕ.suc left) index =
    let rest = first_free taken numbered left (index + 1) in
    if taken (numbered index) then rest else some (numbered index)

-- `range(2, 1000)`
abbrev pub tries : ℕ
tries = 998

abbrev pub found : Option Text → Result Text
found none = err no_free_name
found (some path) = ok path

unfoldable pub unique_path : (Text → Bool) → (ℕ → Text) → Text → Result Text
unique_path taken numbered name =
    let rest = first_free taken numbered tries 2 in if taken name then found rest else ok name
