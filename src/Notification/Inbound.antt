-- ===== src/Notification/Inbound.antt =====
-- daemon/fedoralink/plugins/notification.py: what NotificationPlugin does with the phone's packets,
-- and the notifications of the daemon itself, `show_local` and `show_progress`.
use Prim.Native.String.{◌++◌}
use fedoralink.Prelude.{
  ℕ, ◌≡◌, ◌<◌, refl, ap, ◌∙◌, String, Bool, true, false, Option, none, some, List, [], ◌∷◌, str_eq,
  if◌then◌else◌,
}
use fedoralink.Json.{Json, Fields, get, truthy, as_str}
use fedoralink.Notification.{Notifications, mirror, mark_repliable, dismiss_locally}
use fedoralink.Notification.Mirror.{
  IsPaired, IsServer, mirror-IsPaired, marked, dismiss_locally-IsPaired,
}

-- The arguments of Notify, but for the replaced id, the icon and the desktop entry. The urgency
-- is none where the hint is left out.
pub record Notice : Type 0 where
  pub app : String
  pub summary : String
  pub text : String
  pub actions : List (String × String)
  pub urgency : Option ℕ
  pub transient : Bool
  pub sound : Option String

-- what the plugin did: the notice that it asked the server to post, if any, or a TypeError
pub data Reaction : Type 0 where
  quiet : Notifications → Reaction
  posts : Notice → Notifications → Reaction
  raises : Notifications → Reaction

unfoldable pub after : Reaction → Notifications
after (quiet n) = n
after (posts _ n) = n
after (raises n) = n

-- `body.get(key) or default`, if that is a text
unfoldable pub text_or : String → Json → Option String
text_or default v = if truthy v then as_str v else some default

unfoldable pub buttons : Bool → List (String × String)
buttons true = ("fedoralink-reply", "Reply") ∷ ("fedoralink-dismiss", "Dismiss on phone") ∷ []
buttons false = ("fedoralink-dismiss", "Dismiss on phone") ∷ []

unfoldable pub label : String → String → String
label app title = if str_eq title "" then app else app ++ ": " ++ title

-- `show_local`: the notice, if it is posted; its id is not kept
unfoldable pub show_local : String → String → Bool → Option String → Notifications → Option Notice
show_local summary text urgent sound n =
    if n.has_bus
    then some (record {
      app = "FedoraLink";
      summary = summary;
      text = text;
      actions = [];
      urgency = if urgent then some 2 else none;
      transient = false;
      sound = sound;
    })
    else none

abbrev pub shown : Option Notice → Notifications → Reaction
shown none n = quiet n
shown (some p) n = posts p n

-- `str(reason)` of Python
module _ (print : Json → String) where
  abbrev pub reason_text : Json → String
  reason_text reason = if truthy reason then print reason else "the phone could not deliver it"

  -- `_on_remote_action`
  abbrev pub on_remote_action : Fields → Notifications → Reaction
  unfolding show_local
  on_remote_action body n = elim (as_str (get "action" body)) [
    | none ↦ quiet n
    | some action ↦
        if str_eq action "reply-failed"
        then shown (show_local "Reply not delivered" (reason_text (get "reason" body)) true none n)
            n
        else quiet n
  ]

-- The server: the id of the posted notification, from the notice and the id that it replaces;
-- none is a GLib.Error.
module _ (notify : Notice → ℕ → Option ℕ) where
  -- Notify of `_mirror`; a missing bus has no `call_sync`
  abbrev pub post_mirror : String → String → String → String → Bool → Notifications → Reaction
  unfolding buttons label
  post_mirror key app title text can_reply n =
      if n.has_bus
      then posts notice (mirror (notify notice) key (label app title) can_reply n)
      else raises (mark_repliable can_reply key n)
    where
      notice : Notice
      notice = record {
        app = app;
        summary = title;
        text = text;
        actions = buttons can_reply;
        urgency = some 1;
        transient = false;
        sound = none;
      }

  -- the texts of a notice; GLib.Variant takes nothing else
  abbrev pub with_texts :
      String → Bool → Option String → Option String → Option String → Notifications → Reaction
  with_texts key can_reply (some app) (some title) (some text) n =
      post_mirror key app title text can_reply n
  with_texts key can_reply none _ _ n = raises (mark_repliable can_reply key n)
  with_texts key can_reply (some _) none _ n = raises (mark_repliable can_reply key n)
  with_texts key can_reply (some _) (some _) none n = raises (mark_repliable can_reply key n)

  abbrev title_or : Option String → Json → Option String
  unfolding text_or
  title_or none title = none
  title_or (some app) title = text_or app title

  -- `_mirror`. The key is a text, or none where the body has none.
  unfoldable pub mirror_body : Option String → Fields → Notifications → Reaction
  unfolding text_or
  mirror_body none body n = quiet n
  mirror_body (some key) body n =
      if str_eq key ""
      then quiet n
      else with_texts key (truthy (get "canReply" body)) (text_or "Phone" (get "appName" body))
          (title_or (text_or "Phone" (get "appName" body)) (get "title" body))
          (text_or "" (get "text" body)) n

-- `_dismiss_locally` of a key that may be missing
unfoldable pub dismiss_key : Bool → Option String → Notifications → Reaction
dismiss_key closes none n = quiet n
dismiss_key closes (some key) n =
    if str_eq key "" then quiet n else quiet (dismiss_locally closes key n)

-- the types of packets that the plugin handles
pub data Kind : Type 0 where
  notification notification_action notification_dismiss : Kind

-- `on_packet`; `closes` is false where CloseNotification fails
unfoldable pub on_packet :
    (Json → String)
    → (Notice → ℕ → Option ℕ)
    → Bool
    → Kind
    → Option String
    → Fields
    → Notifications
    → Reaction
unfolding mirror_body dismiss_key
on_packet print notify closes notification key body n = mirror_body notify key body n
on_packet print notify closes notification_action key body n = on_remote_action print body n
on_packet print notify closes notification_dismiss key body n = dismiss_key closes key n

abbrev replaced : Option ℕ → ℕ
replaced none = 0
replaced (some id) = id

abbrev progressed : Option ℕ → Option ℕ → Option ℕ
progressed none id = id
progressed (some given) _ = some given

abbrev pub progress_notice : String → String → Notice
progress_notice summary text = record {
  app = "FedoraLink";
  summary = summary;
  text = text;
  actions = [];
  urgency = none;
  transient = true;
  sound = none;
}

-- `show_progress`: the id to replace next time
unfoldable pub show_progress :
    (Notice → ℕ → Option ℕ) → Option ℕ → String → String → Notifications → Option ℕ
show_progress notify id summary text n =
    if n.has_bus then progressed (notify (progress_notice summary text) (replaced id)) id else none

-- the id after several updates of a transfer's progress
unfoldable pub show_all :
    (Notice → ℕ → Option ℕ) → Option ℕ → List (String × String) → Notifications → Option ℕ
unfolding show_progress
show_all notify id [] n = id
show_all notify id ((summary, text) ∷ more) n =
    show_all notify (show_progress notify id summary text n) more n

shown-IsPaired : (o : Option Notice) (n : Notifications) → IsPaired n → IsPaired (after (shown o n))
unfolding after
shown-IsPaired none n p = p
shown-IsPaired (some _) n p = p

if-IsPaired :
    (b : Bool) (r r' : Reaction)
    → IsPaired (after r)
    → IsPaired (after r')
    → IsPaired (after (if b then r else r'))
if-IsPaired true r r' p p' = p
if-IsPaired false r r' p p' = p'

module _ (notify : Notice → ℕ → Option ℕ) (n : Notifications)
    (server : (p : Notice) → IsServer (notify p) n) (paired : IsPaired n) where
  post-IsPaired :
      (key app title text : String) (can_reply : Bool)
      → IsPaired (after (post_mirror notify key app title text can_reply n))
  unfolding after post_mirror
  post-IsPaired key app title text can_reply =
      if-IsPaired n.has_bus _ _ (mirror-IsPaired (notify _) key _ can_reply n (server _) paired)
        (marked can_reply key n paired)

  with_texts-IsPaired :
      (key : String) (can_reply : Bool) (app title text : Option String)
      → IsPaired (after (with_texts notify key can_reply app title text n))
  unfolding after
  with_texts-IsPaired key c (some app) (some title) (some text) = post-IsPaired key app title text c
  with_texts-IsPaired key c none _ _ = marked c key n paired
  with_texts-IsPaired key c (some _) none _ = marked c key n paired
  with_texts-IsPaired key c (some _) (some _) none = marked c key n paired

  mirror_body-IsPaired :
      (key : Option String) (body : Fields) → IsPaired (after (mirror_body notify key body n))
  unfolding mirror_body after
  mirror_body-IsPaired none body = paired
  mirror_body-IsPaired (some key) body =
      if-IsPaired (str_eq key "") _ _ paired
        (with_texts-IsPaired key (truthy (get "canReply" body)) _ _ _)

  dismiss_key-IsPaired :
      (closes : Bool) (key : Option String) → IsPaired (after (dismiss_key closes key n))
  unfolding dismiss_key after
  dismiss_key-IsPaired closes none = paired
  dismiss_key-IsPaired closes (some key) =
      if-IsPaired (str_eq key "") _ _ paired (dismiss_locally-IsPaired closes key n paired).0

remote_action-IsPaired :
    (print : Json → String) (body : Fields) (n : Notifications)
    → IsPaired n
    → IsPaired (after (on_remote_action print body n))
unfolding on_remote_action after
remote_action-IsPaired print body n p = go (as_str (get "action" body))
  where
    go :
        (o : Option String)
        → IsPaired (
            after (elim o [
              | none ↦ quiet n
              | some action ↦
                  if str_eq action "reply-failed"
                  then shown
                      (show_local "Reply not delivered"
                        (reason_text print (get "reason" body))
                        true
                        none
                        n)
                      n
                  else quiet n
            ]))
    go none = p
    go (some action) = if-IsPaired (str_eq action "reply-failed") _ _ (shown-IsPaired _ n p) p

-- Whatever the phone sends, a notification of any content, a dismissal or an action, the two maps
-- stay inverse to one another, also where the packet ends in a TypeError. The server answers Notify
-- as its specification says.
pub on_packet-IsPaired :
    (print : Json → String) (notify : Notice → ℕ → Option ℕ) (closes : Bool) (kind : Kind)
    (key : Option String) (body : Fields) (n : Notifications)
    → ((p : Notice) → IsServer (notify p) n)
    → IsPaired n
    → IsPaired (after (on_packet print notify closes kind key body n))
unfolding on_packet
on_packet-IsPaired print notify closes notification key body n server p =
    mirror_body-IsPaired notify n server p key body
on_packet-IsPaired print notify closes notification_action key body n server p =
    remote_action-IsPaired print body n p
on_packet-IsPaired print notify closes notification_dismiss key body n server p =
    dismiss_key-IsPaired notify n server p closes key

-- With a server that answers Notify as its specification says, every later update of a progress
-- notification, failed ones included, stays on the one that is shown.
pub show_all-stays :
    (notify : Notice → ℕ → Option ℕ) (id : ℕ) (updates : List (String × String)) (n : Notifications)
    → n.has_bus ≡ true
    → ((p : Notice) → IsServer (notify p) n)
    → 0 < id
    → show_all notify (some id) updates n ≡ some id
unfolding show_all show_progress
show_all-stays notify id [] n bus server pos = refl
show_all-stays notify id ((summary, text) ∷ more) n bus server pos =
    ap (λ o. show_all notify o more n)
      (rw bus (same (notify (progress_notice summary text) id) refl))
    ∙ show_all-stays notify id more n bus server pos
  where
    same :
        (o : Option ℕ)
        → notify (progress_notice summary text) id ≡ o
        → progressed o (some id) ≡ some id
    same none e = refl
    same (some given) e = ap some ((server (progress_notice summary text)).keeps id given pos e)
