-- ===== src/Examples/Desk.antt =====
-- Notifications, files, settings and plugins.
use fedoralink.Prelude.{
  ℕ, ◌≡◌, ◌↔◌, ◌<◌, refl, String, true, false, Option, none, some, List, [], ◌∷◌, take, eq_iff,
  arith,
}
use fedoralink.Prelude.Assoc.{lookup, member}
use fedoralink.Json.{Json, str, int, bool, Fields, end, field, get, as_str, as_text, truthy}
use fedoralink.Devices.{DeviceStore, StoreFile, missing, save, secret_for, revoke}
use fedoralink.Devices
use fedoralink.Json.Sorting.{sort_keys}
use fedoralink.Devices.Trust.{Change, trusting, revoking, apply_all, load-save}
use fedoralink.Notification.{Notifications, same_id, dismissal, on_closed}
use fedoralink.Notification.Inbound.{Notice, notification, after, on_packet, on_packet-IsPaired}
use fedoralink.Notification.Mirror.{IsPaired, IsServer, on_closed-dismissal}
use fedoralink.Plugins.Battery.{low, check_all, no_reading, one_more, check_all-low}
use fedoralink.Plugins.Clipboard.{
  to_phone, set_from_shell, set_from_shell-on_packet, on_packet-set_from_shell,
}
use fedoralink.Plugins.Clipboard
use fedoralink.Plugins.Presence.{
  Presence, Desk, Event, came, was_trusted, left, time_over, IsAway, step-IsAway,
}
use fedoralink.Plugins.Presence
use fedoralink.Transfers.{
  Text, base_of, safe_name, unique_path, TransferError, ok, err, rstrip, is_allowed,
}
use fedoralink.Auth.{codes}
use fedoralink.Transfers.Naming.Dots.{begins, safe_name-begins}
use fedoralink.Transfers.Naming.{IsPlain, safe_name_hidden, unique_path_free}
use fedoralink.Transfers.Incoming.{Hashing, moves, open_incoming, finish, done}
use fedoralink.Transfers.Incoming.Laws.{open_incoming-IsAccounted, Ended, finish-Ended}
use fedoralink.Transfers.Outgoing.{Outgoing, open_outgoing, sha256}
use fedoralink.Transfers.Whole.{read_all, write_all, finish-read_all}

-- one mirror, of the phone's "k" as 5
abbrev mirrored : Notifications
mirrored = record {
  has_bus = true;
  remote_to_local = ("k", 5) ∷ [];
  local_to_remote = (5, "k") ∷ [];
  repliable = [];
  titles = (5, "Title") ∷ [];
  self_closed = [];
  own_actions = [];
}

abbrev nothing_shown : Notifications
nothing_shown = record {
  has_bus = true;
  remote_to_local = [];
  local_to_remote = [];
  repliable = [];
  titles = [];
  self_closed = [];
  own_actions = [];
}

-- a server that gives the id 5 to a new notification
abbrev five : ℕ → Option ℕ
five ℕ.zero = some 5
five (ℕ.suc id) = some (ℕ.suc id)

nothing_shown-IsPaired : IsPaired nothing_shown
unfolding lookup
nothing_shown-IsPaired = record {
  there = λ key id e. ground arith;
  back = λ key id e. ground arith;
  positive = λ key id e. ground arith;
}

mirrored-IsPaired : IsPaired mirrored
unfolding lookup
mirrored-IsPaired = record {
  there = λ key id e. ground (arith, eq_iff "k" key);
  back = λ key id e. ground (arith, eq_iff "k" key);
  positive = λ key id e. ground (arith, eq_iff "k" key);
}

five-IsServer : (p : Notice) → IsServer five nothing_shown
unfolding lookup
five-IsServer p = record {
  keeps = λ id given. kept id given;
  fresh = λ given e. (refl, ground arith);
}
  where
    kept : (id given : ℕ) → 0 < id → five id ≡ some given → given ≡ id
    kept ℕ.zero given p e = ground arith
    kept (ℕ.suc id) given p e = ground arith

-- no reason of a failed reply has a text here
abbrev print_none : Json → String
print_none _ = ""

abbrev hello_body : Fields
hello_body = field "key" (str "k") (field "title" (str "Hello") (field "canReply" (bool true) end))

on_packet-IsPaired_example :
    IsPaired (
      after
        (on_packet print_none (λ _. five) true notification (some "k") hello_body nothing_shown))
on_packet-IsPaired_example =
    on_packet-IsPaired print_none (λ _. five) true notification (some "k") hello_body nothing_shown
      five-IsServer nothing_shown-IsPaired

abbrev dismissing : ℕ
dismissing = 2

on_closed-dismissal_example : ((on_closed 5 dismissing mirrored).0 ≡ dismissal "k" ∷ []) ↔ (
    (member same_id 5 [] ≡ false)
    × (lookup same_id 5 mirrored.own_actions ≡ none)
    × (lookup same_id 5 mirrored.local_to_remote ≡ some "k")
    × (dismissing ≡ 2))
on_closed-dismissal_example = on_closed-dismissal 5 dismissing "k" mirrored

abbrev warnings : Fields
warnings = field "battery_low_warning" (bool true) (field "battery_low_threshold" (int 15) end)

check_all-low_example :
    (check_all warnings
      ((12, false) ∷ (11, false) ∷ [])
      (record { level = none; charging = false; warned = false })).0
    ≡ low 12 ∷ []
unfolding get truthy
check_all-low_example =
    check_all-low warnings 15 12 ((11, false) ∷ [])
      (record { level = none; charging = false; warned = false }) refl refl
      (one_more 12 ((11, false) ∷ []) (omega arith) (one_more 11 [] (omega arith) no_reading)) refl

abbrev copied : Fields
copied = field "content" (str "text") end

set_from_shell-on_packet_example :
    set_from_shell (λ s. 4) "text" false (Clipboard.on_packet true copied none).1
    ≡ ([], some "text")
unfolding get as_text as_str
set_from_shell-on_packet_example = set_from_shell-on_packet (λ s. 4) true "text" copied none refl

safe_name-begins_example :
    IsPlain (safe_name (str "../../_.."))
    × (begins b'.' (safe_name (str "../../_..")) ≡ true
        → (s : String) × (str "../../_.." ≡ str s) × (begins b'_' (base_of (codes s)) ≡ true))
safe_name-begins_example = safe_name-begins (str "../../_..")

safe_name_hidden_example : safe_name (str "_.a") ≡ b'.' ∷ rstrip b'_' (take 198 (b'a' ∷ []))
unfolding is_allowed
safe_name_hidden_example = safe_name_hidden "_.a" (b'a' ∷ []) refl refl

unique_path_free_example :
    ((path : Text)
      → unique_path (λ p. false) (λ k. b'a' ∷ k ∷ []) (b'a' ∷ []) ≡ ok path
      → false ≡ false)
    × ((e : TransferError)
        → unique_path (λ p. false) (λ k. b'a' ∷ k ∷ []) (b'a' ∷ []) ≡ err e
        → (false ≡ true) × ((k : ℕ) → k < 998 → false ≡ true))
unique_path_free_example = unique_path_free (λ p. false) (λ k. b'a' ∷ k ∷ []) (b'a' ∷ [])

abbrev hashing : Hashing
hashing = record { hexdigest = λ bytes. "aa"; lower = λ s. s }

finish-Ended_example :
    Ended hashing moves
      (str "aa")
      (open_incoming "t" 0 none)
      (finish hashing moves (str "aa") (open_incoming "t" 0 none))
unfolding open_incoming
finish-Ended_example =
    finish-Ended hashing moves (str "aa") (open_incoming "t" 0 none)
      (open_incoming-IsAccounted "t" 0 none) refl

abbrev small_file : Outgoing
small_file = record {
  id = "t";
  size = 2;
  sent = 0;
  next_seq = 0;
  hashed = [];
  unread = 8 ∷ 9 ∷ [];
  closed = false;
}

finish-read_all_example :
    ((write_all (read_all 3 small_file).0 (open_incoming "t" 2 none)).0 ≡ done tt)
    × ((finish hashing moves
          (str (sha256 hashing (read_all 3 small_file).1))
          (write_all (read_all 3 small_file).0 (open_incoming "t" 2 none)).1).0
        ≡ done tt)
    × ((finish hashing moves
          (str (sha256 hashing (read_all 3 small_file).1))
          (write_all (read_all 3 small_file).0 (open_incoming "t" 2 none)).1).1.target
        ≡ some (8 ∷ 9 ∷ []))
unfolding open_outgoing
finish-read_all_example =
    finish-read_all hashing "t" (8 ∷ 9 ∷ []) none small_file 3 refl refl (omega arith)

abbrev empty_store : DeviceStore
empty_store = record { known = end; file = missing }

abbrev changes : List Change
changes = trusting true "phone" "Phone" "s" ∷ trusting true "a" "A" "t" ∷ revoking true "old" ∷ []

load-save_example :
    (again : DeviceStore) × (Devices.load (save true (apply_all changes empty_store)).1.file
      ≡ some again)
    × ((id : String)
        → get id again.known ≡ sort_keys (get id (apply_all changes empty_store).known))
    × ((id : String) → secret_for id again ≡ secret_for id (apply_all changes empty_store))
unfolding Devices.load
load-save_example = load-save missing empty_store changes refl

abbrev ring_three : Fields
ring_three = field "pc_ring_seconds" (int 3) (field "lan_transport" (int 1) end)

abbrev locking : Fields
locking =
    field "lock_on_disconnect" (bool true) (field "lock_on_disconnect_grace_seconds" (int 30) end)

abbrev desk : Desk
desk = record {
  connected = false;
  trusted = false;
  presence = record { has_bus = true; grace = none };
}

step-IsAway_example :
    IsAway locking
      (Presence.step locking time_over
        (Presence.run locking (came ∷ was_trusted ∷ left ∷ []) desk)).1
unfolding Presence.step Presence.run Presence.on_connected Presence.on_disconnected
    Presence.cancel_grace Presence.grace_elapsed Presence.lock get truthy
step-IsAway_example = step-IsAway locking (came ∷ was_trusted ∷ left ∷ []) time_over desk refl refl
