-- ===== src/Config/Merge.antt =====
-- What a settings file can and cannot do to the configuration.
use fedoralink.Prelude.{
  ◌≡◌, ◌↔◌, refl, String, true, none, str_eq, eq_iff, arith, Bool-cases, inl, inr, if◌then◌else◌,
}
use fedoralink.Json.{
  Json, null, bool, int, negsuc, float, str, arr, obj, Fields, end, field, get, contains,
}
use fedoralink.Config.{
  defaults, put, is_usable, override, override_all, in_percent, threshold_key, check_threshold,
  merge, FileRead, missing, unreadable, not_text, not_json, parsed, load,
}

pub get-put :
    (k j : String) (v : Json) (fs : Fields)
    → get j (put k v fs) ≡ (if str_eq k j then v else get j fs)
unfolding get put
get-put k j v end = refl
get-put k j v (field i w rest) =
    ground (arith, eq_iff k j, eq_iff i k, eq_iff i j, get-put k j v rest)

-- Every setting has the type of its default, integers not negative.
pub record IsTyped (fs : Fields) : Type 0 where
  pub at : (k : String) → is_usable (get k defaults) (get k fs) ≡ true

put-IsTyped :
    (k : String) (v : Json) (fs : Fields)
    → is_usable (get k defaults) v ≡ true
    → IsTyped fs
    → IsTyped (put k v fs)
put-IsTyped k v fs u t = record {
  at = λ j. rw (get-put k j v fs) (elim (Bool-cases (str_eq k j)) [
    | inl e ↦ rw e (rw ((eq_iff k j).0 e) at u)
    | inr e ↦ rw e (t.at j)
  ]);
}

override-IsTyped : (k : String) (v : Json) (fs : Fields) → IsTyped fs → IsTyped (override k v fs)
unfolding override
override-IsTyped k v fs t = elim (Bool-cases (contains k defaults)) [
  | inl known ↦ elim (Bool-cases (is_usable (get k defaults) v)) [
    | inl fits ↦ rw (known, fits) (put-IsTyped k v fs fits t)
    | inr not_fits ↦ rw (known, not_fits) t
  ]
  | inr unknown ↦ rw unknown t
]

override_all-IsTyped : (os fs : Fields) → IsTyped fs → IsTyped (override_all os fs)
unfolding override_all
override_all-IsTyped end fs t = t
override_all-IsTyped (field k v os) fs t = override_all-IsTyped os _ (override-IsTyped k v fs t)

self_usable : (v : Json) → is_usable v v ≡ true
unfolding is_usable
self_usable (bool b) = refl
self_usable (int n) = refl
self_usable null = refl
self_usable (negsuc n) = refl
self_usable (float b) = refl
self_usable (str s) = refl
self_usable (arr i) = refl
self_usable (obj f) = refl

defaults-IsTyped : IsTyped defaults
defaults-IsTyped = record { at = λ k. self_usable (get k defaults) }

check_threshold-IsTyped : (fs : Fields) → IsTyped fs → IsTyped (check_threshold fs)
unfolding check_threshold
check_threshold-IsTyped fs t = elim (Bool-cases (in_percent (get threshold_key fs))) [
  | inl fits ↦ rw fits t
  | inr not_fits ↦
      rw not_fits (put-IsTyped threshold_key _ fs (self_usable (get threshold_key defaults)) t)
]

-- Whatever JSON the file holds, every setting of the merged configuration has the type of its
-- default, and no integer is negative.
pub merge-IsTyped : (v : Json) → IsTyped (merge v)
unfolding merge
merge-IsTyped (obj os) =
    check_threshold-IsTyped _ (override_all-IsTyped os defaults defaults-IsTyped)
merge-IsTyped null = defaults-IsTyped
merge-IsTyped (bool b) = defaults-IsTyped
merge-IsTyped (int n) = defaults-IsTyped
merge-IsTyped (negsuc n) = defaults-IsTyped
merge-IsTyped (float b) = defaults-IsTyped
merge-IsTyped (str s) = defaults-IsTyped
merge-IsTyped (arr i) = defaults-IsTyped

-- the last usable override of a key, or what is there without one
abbrev last_usable : String → Fields → Json → Json
last_usable k end found = found
last_usable k (field j v rest) found =
    last_usable k rest
      (if str_eq j k then (if is_usable (get k defaults) v then v else found) else found)

-- the value that a file gives a setting, where it gives one of the right type, or the default
unfoldable pub chosen : String → Fields → Json
chosen k os =
    if contains k os
    then (if is_usable (get k defaults) (get k os) then get k os else get k defaults)
    else get k defaults

-- Reading the settings ends in an exception exactly for a file that is not UTF-8 text: for every
-- other failure there is a configuration.
pub load_raises : (r : FileRead) → (load r ≡ none) ↔ (r ≡ not_text)
unfolding load
load_raises missing = ((λ h. cc), (λ h. cc))
load_raises unreadable = ((λ h. cc), (λ h. cc))
load_raises not_text = ((λ h. refl), (λ h. refl))
load_raises not_json = ((λ h. cc), (λ h. cc))
load_raises (parsed v) = ((λ h. cc), (λ h. cc))
