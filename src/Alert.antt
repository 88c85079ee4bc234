-- ===== src/Alert.antt =====
-- daemon/fedoralink/alert.py and daemon/fedoralink/plugins/ping.py: the ring of the desktop.
pub mod Silence
use fedoralink.Prelude.{
  ℕ, zero, suc, ◌-◌, ◌+◌, ◌*◌, ◌/◌, String, Bool, true, false, not, Option, none, some, List, [],
  ◌∷◌, ltb, ◌==◌, ◌||◌, if◌then◌else◌,
}
use fedoralink.Json.{Json, bool, Fields, end, field, get, contains, truthy}

-- `ringing` says that `_source` is set. The code counts `_remaining` on below 0 at its last turn,
-- which nothing reads; here it stays at 0.
pub record Alerter : Type 0 where
  pub has_player : Bool
  pub ringing : Bool
  pub remaining : ℕ

abbrev pub repeat_interval_ms : ℕ
repeat_interval_ms = 1500

-- `fallback_sound_name`
unfoldable pub fallback_sound_name : Alerter → Option String
fallback_sound_name a = if a.has_player then none else some "alarm-clock-elapsed"

-- `stop`
unfoldable pub silence : Alerter → Alerter
silence a = record a { ringing = false; remaining = 0 }

-- `_play_once`: whether there was a sound; where `plays` is false the player cannot be started
unfoldable pub play_once : Bool → Alerter → Bool × Alerter
unfolding silence
play_once plays a =
    if a.has_player then (if plays then (true, a) else (false, silence a)) else (false, a)

-- `max(1, n)`
abbrev pub at_least_one : ℕ → ℕ
at_least_one n = if ltb n 1 then 1 else n

-- `(seconds * 1000) // REPEAT_INTERVAL_MS`, at least 1
unfoldable pub rings_for : ℕ → ℕ
rings_for seconds = at_least_one ((seconds * 1000) / repeat_interval_ms)

abbrev pub going : Bool × Alerter → Bool × Alerter
going (sounded, a) = (sounded, record a { ringing = true })

-- `start`; a negative number of seconds is 0 here, which the code treats alike
unfoldable pub start_ringing : Bool → ℕ → Alerter → Bool × Alerter
unfolding silence play_once rings_for
start_ringing plays seconds a =
    if not a.has_player || seconds == 0
    then (false, silence a)
    else going (play_once plays (record (silence a) { remaining = rings_for seconds }))

-- `_tick`
unfoldable pub tick : Bool → Alerter → Bool × Alerter
unfolding play_once
tick plays a =
    let left = a.remaining - 1 in
    if left == 0
    then (false, record a { ringing = false; remaining = left })
    else play_once plays (record a { remaining = left })

abbrev pub count : Bool → ℕ → ℕ
count true n = suc n
count false n = n

abbrev pub tick_on : (Alerter → ℕ × Alerter) → Bool × Alerter → ℕ × Alerter
tick_on more (sounded, a) = let (n, b) = more a in (count sounded n, b)

abbrev pub if_ringing : Bool → (ℕ × Alerter) → Alerter → ℕ × Alerter
if_ringing true more a = more
if_ringing false more a = (0, a)

-- the turns of the timer, while it is set; of each, whether the player can be started: how often
-- there was a sound, and the state in the end
unfoldable pub ring : List Bool → Alerter → ℕ × Alerter
unfolding tick
ring [] a = (0, a)
ring (plays ∷ more) a = if_ringing a.ringing (tick_on (ring more) (tick plays a)) a

-- What `PingPlugin` does outside: a packet, or a message, urgent or not, with the sound it names.
pub data Act : Type 0 where
  packet : String → Fields → Act
  told : Bool → Option String → Act

-- `ring_phone` and `stop_ringing`
unfoldable pub ask_phone : Bool → List Act
ask_phone on = packet "fedoralink.ping" (field "ring" (bool on) end) ∷ []

-- `on_packet` of the plugin; the texts of its messages are left out
unfoldable pub on_packet : Bool → ℕ → Fields → Alerter → List Act × Alerter
unfolding silence start_ringing fallback_sound_name
on_packet plays seconds body a =
    if not (contains "ring" body)
    then (told false none ∷ [], a)
    else if not (truthy (get "ring" body))
    then ([], silence a)
    else (told true (fallback_sound_name a) ∷ [], (start_ringing plays seconds a).1)
