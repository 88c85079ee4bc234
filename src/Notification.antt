-- ===== src/Notification.antt =====
-- daemon/fedoralink/plugins/notification.py: the mirror of the phone's notifications, and the
-- questions that the daemon itself asks. The answers of the notification server are arguments.
pub mod Mirror
pub mod Inbound
use fedoralink.Prelude.{
  ℕ, String, Bool, true, false, Option, none, some, List, [], ◌∷◌, ◌==◌, str_eq, is_some,
  if◌then◌else◌,
}
use fedoralink.Prelude.Assoc.{lookup, insert, erase, member, add, discard}

-- Who asked a question: the callbacks that are passed to `ask`.
pub data Asker : Type 0 where
  enrollment file_offer : Asker

pub record Notifications : Type 0 where
  pub has_bus : Bool
  pub remote_to_local : List (String × ℕ)
  pub local_to_remote : List (ℕ × String)
  pub repliable : List String
  pub titles : List (ℕ × String)
  pub self_closed : List ℕ
  pub own_actions : List (ℕ × Asker)

abbrev pub same_id : ℕ → ℕ → Bool
same_id a b = a == b

abbrev pub same_key : String → String → Bool
same_key a b = str_eq a b

-- What a handler asks of the rest: packets to the phone, the reply box of the shell, and a
-- callback with the chosen action, `none` for a notification closed without an answer.
pub data Request : Type 0 where
  dismissal : String → Request
  action : String → String → Request
  reply_text : String → String → Request
  reply_box : String → String → Request
  answer : Asker → Option String → Request

-- `_close_local`: `closes` is false where CloseNotification fails
unfoldable pub close_local : Bool → ℕ → Notifications → Notifications
close_local closes id n =
    if closes
    then record n { self_closed = add same_id id n.self_closed }
    else record n { self_closed = discard same_id id (add same_id id n.self_closed) }

-- the id that an update replaces; 0 for none
abbrev id_or_zero : Option ℕ → ℕ
id_or_zero none = 0
id_or_zero (some id) = id

unfoldable pub replaces_id : String → Notifications → ℕ
replaces_id key n = id_or_zero (lookup same_key key n.remote_to_local)

abbrev pub mark_repliable : Bool → String → Notifications → Notifications
mark_repliable true key n = record n { repliable = add same_key key n.repliable }
mark_repliable false key n = record n { repliable = discard same_key key n.repliable }

abbrev pub posted : String → String → Option ℕ → Notifications → Notifications
posted key title none n = n
posted key title (some id) n = record n {
  remote_to_local = insert same_key key id n.remote_to_local;
  local_to_remote = insert same_id id key n.local_to_remote;
  titles = insert same_id id title n.titles;
}

-- `_mirror`, for a key that is a text and not empty. `notify` answers Notify with the id of the
-- notification, from the id that is to be replaced; `none` is its GLib.Error.
unfoldable pub mirror : (ℕ → Option ℕ) → String → String → Bool → Notifications → Notifications
mirror notify key title can_reply n =
    posted key title (notify (replaces_id key n)) (mark_repliable can_reply key n)

abbrev pub dismissed : Bool → String → Option ℕ → Notifications → Notifications
dismissed closes key none n = n
dismissed closes key (some id) n = close_local closes id (record n {
  remote_to_local = erase same_key key n.remote_to_local;
  local_to_remote = erase same_id id n.local_to_remote;
  titles = erase same_id id n.titles;
})

-- `_dismiss_locally`
unfoldable pub dismiss_locally : Bool → String → Notifications → Notifications
dismiss_locally closes key n = dismissed closes key (lookup same_key key n.remote_to_local) n

-- `ask`: the id of the question, if it could be posted
unfoldable pub ask : Option ℕ → Asker → Notifications → Option ℕ × Notifications
ask none asker n = (none, n)
ask (some id) asker n =
    if n.has_bus
    then (some id, record n { own_actions = insert same_id id asker n.own_actions })
    else (none, n)

-- `cancel_ask`
unfoldable pub cancel_ask : Bool → Option ℕ → Notifications → Notifications
cancel_ask closes none n = n
cancel_ask closes (some id) n =
    if is_some (lookup same_id id n.own_actions)
    then close_local closes id (record n { own_actions = erase same_id id n.own_actions })
    else n

-- org.freedesktop.Notifications: the close reason for a deliberate dismissal
abbrev dismissed_by_user : ℕ
dismissed_by_user = 2

abbrev pub mirror_closed : ℕ → ℕ → Option String → Notifications → List Request × Notifications
mirror_closed id reason none n = ([], n)
mirror_closed id reason (some key) n = (
  (if reason == dismissed_by_user then dismissal key ∷ [] else []),
  record n {
    local_to_remote = erase same_id id n.local_to_remote;
    remote_to_local = erase same_key key n.remote_to_local;
    titles = erase same_id id n.titles;
  },
)

abbrev pub closed_by_other : ℕ → ℕ → Option Asker → Notifications → List Request × Notifications
closed_by_other id reason (some asker) n =
    (answer asker none ∷ [], record n { own_actions = erase same_id id n.own_actions })
closed_by_other id reason none n = mirror_closed id reason (lookup same_id id n.local_to_remote) n

-- `_on_notification_closed`
unfoldable pub on_closed : ℕ → ℕ → Notifications → List Request × Notifications
on_closed id reason n =
    if member same_id id n.self_closed
    then (
      [],
      record n {
        self_closed = discard same_id id n.self_closed;
        own_actions = erase same_id id n.own_actions;
      },
    )
    else closed_by_other id reason (lookup same_id id n.own_actions) n

abbrev title_of : Option String → String
title_of none = ""
title_of (some t) = t

abbrev pub mirror_action : ℕ → String → Option String → Notifications → List Request × Notifications
mirror_action id chosen none n = ([], n)
mirror_action id chosen (some key) n =
    if str_eq chosen "fedoralink-dismiss"
    then (action key "dismiss" ∷ [], n)
    else if str_eq chosen "fedoralink-reply"
    then (reply_box key (title_of (lookup same_id id n.titles)) ∷ [], n)
    else ([], n)

abbrev pub own_action :
    Bool → ℕ → String → Option Asker → Notifications → List Request × Notifications
own_action closes id chosen (some asker) n = (
  answer asker (some chosen) ∷ [],
  close_local closes id (record n { own_actions = erase same_id id n.own_actions }),
)
own_action closes id chosen none n = mirror_action id chosen (lookup same_id id n.local_to_remote) n

-- `_on_action_invoked`
unfoldable pub on_action : Bool → ℕ → String → Notifications → List Request × Notifications
unfolding close_local
on_action closes id chosen n = own_action closes id chosen (lookup same_id id n.own_actions) n

-- `reply`
unfoldable pub reply : String → String → Notifications → List Request
reply key text n =
    if member same_key key n.repliable
    then (if str_eq text "" then [] else reply_text key text ∷ [])
    else []

-- the mirrors that `on_disconnected` closes, each with the server's answer
unfoldable pub close_all : (ℕ → Bool) → List (ℕ × String) → Notifications → Notifications
close_all closes [] n = n
close_all closes ((id, _) ∷ more) n = close_all closes more (close_local (closes id) id n)

-- `on_disconnected`
unfoldable pub clear : (ℕ → Bool) → Notifications → Notifications
clear closes n = record (close_all closes n.local_to_remote n) {
  remote_to_local = [];
  local_to_remote = [];
  repliable = [];
  titles = [];
}
