-- ===== src/Plugins/Battery.antt =====
-- daemon/fedoralink/plugins/battery.py, with `set_battery` of daemon/fedoralink/daemon.py.
use fedoralink.Prelude.{
  ℕ, ◌≤◌, ◌≡◌, refl, Bool, true, false, not, ◌&&◌, ◌||◌, Option, none, some, List, [], ◌∷◌, ◌++◌,
  ltb, leb, ◌==◌, ltb→lt, if◌then◌else◌, arith, inl, inr, Bool-cases,
}
use fedoralink.Json.{Json, null, bool, int, negsuc, float, str, arr, obj, Fields, get, truthy}

-- `level` is `battery_level` of the daemon, with none for -1; `warned` is the plugin's.
pub record Battery : Type 0 where
  pub level : Option ℕ
  pub charging : Bool
  pub warned : Bool

pub data Notice : Type 0 where
  changed : Notice
  low : ℕ → Notice

abbrev same_level : Option ℕ → Option ℕ → Bool
same_level none none = true
same_level none (some _) = false
same_level (some _) none = false
same_level (some a) (some b) = a == b

abbrev same_bool : Bool → Bool → Bool
same_bool true b = b
same_bool false b = not b

-- `Daemon.set_battery`
unfoldable pub set_battery : Option ℕ → Bool → Battery → List Notice × Battery
set_battery level charging b =
    if same_level level b.level && same_bool charging b.charging
    then ([], b)
    else (changed ∷ [], record b { level = level; charging = charging })

-- `on_disconnected`
unfoldable pub on_disconnected : Battery → List Notice × Battery
unfolding set_battery
on_disconnected b =
    let (notices, b') = set_battery none false b in (notices, record b' { warned = false })

-- `isinstance(level, int) and 0 <= level <= 100`; True and False are ints of Python
unfoldable pub as_level : Json → Option ℕ
as_level (int n) = if leb n 100 then some n else none
as_level (bool b) = some (if b then 1 else 0)
as_level null = none
as_level (negsuc _) = none
as_level (float _) = none
as_level (str _) = none
as_level (arr _) = none
as_level (obj _) = none

-- `level > threshold`, for the threshold of a merged configuration
unfoldable pub is_above : ℕ → Json → Bool
is_above level (int threshold) = ltb threshold level
is_above level _ = true

-- `_check_low`
unfoldable pub check_low : Fields → ℕ → Bool → Battery → List Notice × Battery
unfolding is_above
check_low config level charging b =
    if truthy (get "battery_low_warning" config)
    then (if charging || is_above level (get "battery_low_threshold" config)
        then ([], record b { warned = false })
        else if b.warned
        then ([], b)
        else (low level ∷ [], record b { warned = true }))
    else ([], b)

abbrev accept : Fields → Bool → Battery → Option ℕ → List Notice × Battery
accept config charging b none = ([], b)
accept config charging b (some level) =
    let (first, b1) = set_battery (some level) charging b in
    let (second, b2) = check_low config level charging b1 in (first ++ second, b2)

-- `on_packet`
unfoldable pub on_packet : Fields → Fields → Battery → List Notice × Battery
unfolding set_battery check_low as_level
on_packet config body b =
    accept config (truthy (get "charging" body)) b (as_level (get "level" body))

-- A reading: the percentage and whether the phone charges.
abbrev Reading : Type 0
Reading = ℕ × Bool

-- `_check_low` on each of the readings in turn
unfoldable pub check_all : Fields → List Reading → Battery → List Notice × Battery
check_all config [] b = ([], b)
check_all config ((level, charging) ∷ more) b =
    let (first, b1) = check_low config level charging b in
    let (second, b2) = check_all config more b1 in (first ++ second, b2)

-- Every reading is at or below the threshold, with the phone not charging.
pub data AllLow (threshold : ℕ) : List Reading → Type 0 where
  no_reading : AllLow threshold []
  one_more :
      (level : ℕ) (more : List Reading)
      → level ≤ threshold
      → AllLow threshold more
      → AllLow threshold ((level, false) ∷ more)

-- a warning stands already
check_all-warned :
    (config : Fields) (threshold : ℕ) (readings : List Reading) (b : Battery)
    → get "battery_low_threshold" config ≡ int threshold
    → AllLow threshold readings
    → b.warned ≡ true
    → check_all config readings b ≡ ([], b)
unfolding check_all check_low is_above
check_all-warned config threshold _ b t no_reading w = refl
check_all-warned config threshold _ b t (one_more level more le low_more) w =
    let still = check_all-warned config threshold more b t low_more w in
    elim (Bool-cases (truthy (get "battery_low_warning" config))) [
      | inl e ↦ simp (e, t, w, above) still
      | inr e ↦ simp (e) still
    ]
  where
    above : ltb threshold level ≡ false
    above = ground (arith, ltb→lt threshold level)

-- However many readings in a row are at or below the threshold, with the phone not charging, one
-- warning is posted for them, at the first of them, where none stands and warnings are on.
pub check_all-low :
    (config : Fields) (threshold level : ℕ) (more : List Reading) (b : Battery)
    → truthy (get "battery_low_warning" config) ≡ true
    → get "battery_low_threshold" config ≡ int threshold
    → AllLow threshold ((level, false) ∷ more)
    → b.warned ≡ false
    → (check_all config ((level, false) ∷ more) b).0 ≡ low level ∷ []
unfolding check_all check_low is_above
check_all-low config threshold _ _ b on t (one_more level more le low_more) w =
    simp
      (
        on,
        t,
        w,
        above,
        check_all-warned config threshold more (record b { warned = true }) t low_more refl,
      )
      refl
  where
    above : ltb threshold level ≡ false
    above = ground (arith, ltb→lt threshold level)
