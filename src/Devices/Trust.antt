-- ===== src/Devices/Trust.antt =====
-- What trusting and revoking a device changes, and what a restart keeps.
use mathlib.Core.Path.{subst}
use fedoralink.Prelude.{
  ◌≡◌, refl, ap, ◌∙◌, String, Bool, true, false, List, [], ◌∷◌, Option, none, some, str_eq, eq_iff,
  is_some, arith, Bool-cases, inl, inr, if◌then◌else◌,
}
use fedoralink.Auth.{codes}
use fedoralink.Json.{
  Json, null, bool, int, negsuc, float, str, arr, obj, Fields, end, field, get, contains, as_fields,
  as_str,
}
use fedoralink.Json.Sorting.{is_before, place, sort_keys, sort_fields, get-sort_fields}
use fedoralink.Config.{put}
use fedoralink.Config.Merge.{get-put}
use fedoralink.Devices.{
  DeviceStore, StoreFile, content, entry_secret, keep_usable, load, save, secret_for, trust, remove,
  revoke, of_save, devices_in, missing, unreadable, not_text, not_json,
}

get-remove :
    (k j : String) (fs : Fields) → get j (remove k fs) ≡ (if str_eq k j then null else get j fs)
unfolding get remove
get-remove k j end = ground arith
get-remove k j (field i v rest) =
    ground (arith, eq_iff k j, eq_iff i k, eq_iff i j, get-remove k j rest)

-- Trusting a device stores its secret under its id and leaves every other secret as it was, whether
-- or not the file could be written.
pub secret_for-trust :
    (disk : Bool) (device_id name secret other : String) (s : DeviceStore)
    → secret_for other (trust disk device_id name secret s).1
      ≡ (if str_eq device_id other then some secret else secret_for other s)
unfolding secret_for trust as_fields get as_str
secret_for-trust true device_id name secret other s =
    rw (get-put device_id other _ s.known)
      (elim (Bool-cases (str_eq device_id other)) [ inl e ↦ rw e refl | inr e ↦ rw e refl ])
secret_for-trust false device_id name secret other s =
    rw (get-put device_id other _ s.known)
      (elim (Bool-cases (str_eq device_id other)) [ inl e ↦ rw e refl | inr e ↦ rw e refl ])

pub get_absent : (k : String) (fs : Fields) → contains k fs ≡ false → get k fs ≡ null
unfolding get contains
get_absent k end h = refl
get_absent k (field j v rest) h = ground (arith, get_absent k rest)

-- After `revoke` the device has no secret, whatever the outcome, and every other device keeps its
-- own.
pub secret_for-revoke :
    (disk : Bool) (device_id other : String) (s : DeviceStore)
    → secret_for other (revoke disk device_id s).1
      ≡ (if str_eq device_id other then none else secret_for other s)
unfolding secret_for revoke entry_secret as_fields
secret_for-revoke disk device_id other s = elim (Bool-cases (contains device_id s.known)) [
  | inl here ↦ rw here (saved disk)
  | inr away ↦ rw away (elim (Bool-cases (str_eq device_id other)) [
    | inl e ↦
        rw e (rw (← (eq_iff device_id other).0 e) (rw (get_absent device_id s.known away) refl))
    | inr e ↦ rw e refl
  ])
]
  where
    removed :
        entry_secret (get other (remove device_id s.known))
        ≡ (if str_eq device_id other then none else entry_secret (get other s.known))
    removed =
        rw (get-remove device_id other s.known)
          (elim (Bool-cases (str_eq device_id other)) [ inl e ↦ rw e refl | inr e ↦ rw e refl ])

    saved :
        (d : Bool)
        → entry_secret
            (get other (of_save (save d (record s { known = remove device_id s.known }))).1.known)
          ≡ (if str_eq device_id other then none else entry_secret (get other s.known))
    saved true = removed
    saved false = removed

-- every entry of the store holds a secret
abbrev pub AllUsable : Fields → Type 0
AllUsable end = Unit
AllUsable (field k v rest) = (is_some (entry_secret v) ≡ true) × AllUsable rest

keep_usable-AllUsable : (fs : Fields) → AllUsable (keep_usable fs)
unfolding keep_usable
keep_usable-AllUsable end = tt
keep_usable-AllUsable (field k v rest) = elim (Bool-cases (is_some (entry_secret v))) [
  | inl e ↦ rw e (e, keep_usable-AllUsable rest)
  | inr e ↦ rw e (keep_usable-AllUsable rest)
]

keep_usable_all : (fs : Fields) → AllUsable fs → keep_usable fs ≡ fs
unfolding keep_usable
keep_usable_all end h = refl
keep_usable_all (field k v rest) h = rw (h.0, keep_usable_all rest h.1) refl

put-AllUsable :
    (k : String) (v : Json) (fs : Fields)
    → is_some (entry_secret v) ≡ true
    → AllUsable fs
    → AllUsable (put k v fs)
unfolding put
put-AllUsable k v end u h = (u, tt)
put-AllUsable k v (field j w rest) u h = elim (Bool-cases (str_eq j k)) [
  | inl e ↦ rw e (u, h.1)
  | inr e ↦ rw e (h.0, put-AllUsable k v rest u h.1)
]

remove-AllUsable : (k : String) (fs : Fields) → AllUsable fs → AllUsable (remove k fs)
unfolding remove
remove-AllUsable k end h = tt
remove-AllUsable k (field j w rest) h = elim (Bool-cases (str_eq j k)) [
  | inl e ↦ rw e (remove-AllUsable k rest h.1)
  | inr e ↦ rw e (h.0, remove-AllUsable k rest h.1)
]

-- a change of the store that its caller asked for, with the fate of the write
pub data Change : Type 0 where
  trusting : Bool → String → String → String → Change
  revoking : Bool → String → Change

pub apply_change : Change → DeviceStore → DeviceStore
apply_change (trusting disk device_id name secret) s = (trust disk device_id name secret s).1
apply_change (revoking disk device_id) s = (revoke disk device_id s).1

pub apply_all : List Change → DeviceStore → DeviceStore
apply_all [] s = s
apply_all (c ∷ cs) s = apply_all cs (apply_change c s)

saved_known : (disk : Bool) (s : DeviceStore) → (save disk s).1.known ≡ s.known
unfolding save
saved_known true s = refl
saved_known false s = refl

change-AllUsable :
    (c : Change) (s : DeviceStore) → AllUsable s.known → AllUsable (apply_change c s).known
unfolding apply_change trust revoke entry_secret as_fields get as_str
change-AllUsable (trusting true device_id name secret) s h =
    put-AllUsable device_id _ s.known refl h
change-AllUsable (trusting false device_id name secret) s h =
    put-AllUsable device_id _ s.known refl h
change-AllUsable (revoking disk device_id) s h = elim (Bool-cases (contains device_id s.known)) [
  | inl here ↦ rw (here, AllUsable) (go disk)
  | inr away ↦ rw (away, AllUsable) h
]
  where
    go :
        (d : Bool)
        → AllUsable (of_save (save d (record s { known = remove device_id s.known }))).1.known
    go true = remove-AllUsable device_id s.known h
    go false = remove-AllUsable device_id s.known h

changes-AllUsable :
    (cs : List Change) (s : DeviceStore) → AllUsable s.known → AllUsable (apply_all cs s).known
unfolding apply_all
changes-AllUsable [] s h = h
changes-AllUsable (c ∷ cs) s h = changes-AllUsable cs (apply_change c s) (change-AllUsable c s h)

abbrev known_of : Option DeviceStore → Fields
known_of none = end
known_of (some s) = s.known

in_file : (o : Option Fields) → AllUsable (devices_in o)
in_file none = tt
in_file (some fs) = keep_usable-AllUsable fs

as_str-sort_keys : (v : Json) → as_str (sort_keys v) ≡ as_str v
unfolding as_str sort_keys
as_str-sort_keys null = refl
as_str-sort_keys (bool b) = refl
as_str-sort_keys (int n) = refl
as_str-sort_keys (negsuc n) = refl
as_str-sort_keys (float bits) = refl
as_str-sort_keys (str s) = refl
as_str-sort_keys (arr items) = refl
as_str-sort_keys (obj fs) = refl

entry_secret-sort_keys : (v : Json) → entry_secret (sort_keys v) ≡ entry_secret v
unfolding entry_secret sort_keys as_fields
entry_secret-sort_keys null = refl
entry_secret-sort_keys (bool b) = refl
entry_secret-sort_keys (int n) = refl
entry_secret-sort_keys (negsuc n) = refl
entry_secret-sort_keys (float bits) = refl
entry_secret-sort_keys (str s) = refl
entry_secret-sort_keys (arr items) = refl
entry_secret-sort_keys (obj fs) =
    ap as_str (get-sort_fields "secret" fs) ∙ as_str-sort_keys (get "secret" fs)

place-AllUsable :
    (k : String) (v : Json) (fs : Fields)
    → is_some (entry_secret v) ≡ true
    → AllUsable fs
    → AllUsable (place k v fs)
unfolding place
place-AllUsable k v end u h = (u, tt)
place-AllUsable k v (field j w rest) u h = elim (Bool-cases (is_before (codes j) (codes k))) [
  | inl e ↦ rw e (h.0, place-AllUsable k v rest u h.1)
  | inr e ↦ rw e (u, h)
]

sort_fields-AllUsable : (fs : Fields) → AllUsable fs → AllUsable (sort_fields fs)
unfolding sort_fields
sort_fields-AllUsable end h = tt
sort_fields-AllUsable (field k v rest) h =
    place-AllUsable k (sort_keys v) (sort_fields rest) (ap is_some (entry_secret-sort_keys v) ∙ h.0)
      (sort_fields-AllUsable rest h.1)

-- A restart after a write that succeeded finds the devices that were in memory, each under its id
-- with its entry but for the order of the keys, and so with its secret: for a store that began by
-- loading some file, and whatever was trusted and revoked in between.
pub load-save :
    (f : StoreFile) (began : DeviceStore) (cs : List Change)
    → load f ≡ some began
    → (again : DeviceStore) × (load (save true (apply_all cs began)).1.file ≡ some again)
      × ((id : String) → get id again.known ≡ sort_keys (get id (apply_all cs began).known))
      × ((id : String) → secret_for id again ≡ secret_for id (apply_all cs began))
unfolding load save as_fields secret_for sort_keys
load-save f began cs e = (
  record { known = sort_fields now; file = content (obj (sort_fields now)) },
  rw
      (keep_usable_all (sort_fields now)
        (sort_fields-AllUsable now (changes-AllUsable cs began (loaded f e))))
      refl,
  (λ id. get-sort_fields id now),
  (λ id. ap entry_secret (get-sort_fields id now) ∙ entry_secret-sort_keys (get id now)),
)
  where
    now : Fields
    now = (apply_all cs began).known

    loaded : (g : StoreFile) → load g ≡ some began → AllUsable began.known
    loaded missing h = subst AllUsable (ap known_of h) tt
    loaded unreadable h = subst AllUsable (ap known_of h) tt
    loaded not_text h = cc
    loaded not_json h = subst AllUsable (ap known_of h) tt
    loaded (content v) h = subst AllUsable (ap known_of h) (in_file (as_fields v))
