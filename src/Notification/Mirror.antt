-- ===== src/Notification/Mirror.antt =====
-- daemon/fedoralink/plugins/notification.py: the two maps between the notifications of both sides.
use fedoralink.Prelude.{
  ℕ, ◌<◌, ◌≡◌, ◌↔◌, ◌⊎◌, inl, inr, refl, ap, ◌∙◌, sym, String, Bool, true, false, Option, none,
  some, List, [], ◌∷◌, ◌==◌, ==_iff, str_eq, eq_iff, arith, Bool-cases, Option-cases, if◌then◌else◌,
}
use fedoralink.Prelude.Assoc.{lookup, insert, erase, member, add, lookup-insert, lookup-erase}
use fedoralink.Notification.{
  Notifications, dismissal, same_id, same_key, close_local, replaces_id, mark_repliable, posted,
  mirror, dismissed, dismiss_locally, mirror_closed, closed_by_other, on_closed, Asker,
}

-- The maps hold the same pairs, and no id is 0.
pub record IsPaired (n : Notifications) : Type 0 where
  pub there :
      (key : String) (id : ℕ)
      → lookup same_key key n.remote_to_local ≡ some id
      → lookup same_id id n.local_to_remote ≡ some key
  pub back :
      (key : String) (id : ℕ)
      → lookup same_id id n.local_to_remote ≡ some key
      → lookup same_key key n.remote_to_local ≡ some id
  pub positive : (key : String) (id : ℕ) → lookup same_key key n.remote_to_local ≡ some id → 0 < id

-- What the notification specification says of Notify: a replaced notification keeps its id, and a
-- new one gets an id that is not 0 and that no notification on screen has.
pub record IsServer (notify : ℕ → Option ℕ) (n : Notifications) : Type 0 where
  pub keeps : (id given : ℕ) → 0 < id → notify id ≡ some given → given ≡ id
  pub fresh :
      (given : ℕ)
      → notify 0 ≡ some given
      → (lookup same_id given n.local_to_remote ≡ none) × (0 < given)

insert-IsPaired :
    (key : String) (id : ℕ) (title : String) (n : Notifications)
    → 0 < id
    → (lookup same_key key n.remote_to_local ≡ some id)
      ⊎ ((lookup same_key key n.remote_to_local ≡ none)
          × (lookup same_id id n.local_to_remote ≡ none))
    → IsPaired n
    → IsPaired (posted key title (some id) n)
insert-IsPaired key id title n pos c p = record {
  there = λ k i e.
      let e' = rw (remote k) at e in
      rw (local i) (ground (arith, eq_iff key k, p.there k i, p.there key id));
  back = λ k i e.
      let e' = rw (local i) at e in
      rw (remote k) (ground (arith, eq_iff key k, p.back k i, p.back key id, p.there k i));
  positive = λ k i e. let e' = rw (remote k) at e in ground (arith, p.positive k i);
}
  where
    remote :
        (k : String)
        → lookup same_key k (insert same_key key id n.remote_to_local)
          ≡ (if str_eq key k then some id else lookup same_key k n.remote_to_local)
    remote k = lookup-insert same_key eq_iff key k id n.remote_to_local

    local :
        (i : ℕ)
        → lookup same_id i (insert same_id id key n.local_to_remote)
          ≡ (if id == i then some key else lookup same_id i n.local_to_remote)
    local i = lookup-insert same_id ==_iff id i key n.local_to_remote

-- the maps without a pair
erase-IsPaired :
    (key : String) (id : ℕ) (n n' : Notifications)
    → lookup same_key key n.remote_to_local ≡ some id
    → n'.remote_to_local ≡ erase same_key key n.remote_to_local
    → n'.local_to_remote ≡ erase same_id id n.local_to_remote
    → IsPaired n
    → IsPaired n'
erase-IsPaired key id n n' h er el p = record {
  there = λ k i e.
      let e' = rw (remote k) at e in
      rw (local i) (ground (arith, eq_iff key k, p.there k i, p.there key id));
  back = λ k i e.
      let e' = rw (local i) at e in
      rw (remote k) (ground (arith, eq_iff key k, p.back k i, p.back key id));
  positive = λ k i e. let e' = rw (remote k) at e in ground (arith, p.positive k i);
}
  where
    remote :
        (k : String)
        → lookup same_key k n'.remote_to_local
          ≡ (if str_eq key k then none else lookup same_key k n.remote_to_local)
    remote k = ap (lookup same_key k) er ∙ lookup-erase same_key eq_iff key k n.remote_to_local

    local :
        (i : ℕ)
        → lookup same_id i n'.local_to_remote
          ≡ (if id == i then none else lookup same_id i n.local_to_remote)
    local i = ap (lookup same_id i) el ∙ lookup-erase same_id ==_iff id i n.local_to_remote

-- a change of the other fields
same-IsPaired :
    (n n' : Notifications)
    → n'.remote_to_local ≡ n.remote_to_local
    → n'.local_to_remote ≡ n.local_to_remote
    → IsPaired n
    → IsPaired n'
same-IsPaired n n' r l p = record {
  there = λ k i e. ap (lookup same_id i) l ∙ p.there k i (sym (ap (lookup same_key k) r) ∙ e);
  back = λ k i e. ap (lookup same_key k) r ∙ p.back k i (sym (ap (lookup same_id i) l) ∙ e);
  positive = λ k i e. p.positive k i (sym (ap (lookup same_key k) r) ∙ e);
}

pub marked :
    (b : Bool) (key : String) (n : Notifications) → IsPaired n → IsPaired (mark_repliable b key n)
marked true key n p = same-IsPaired n _ refl refl p
marked false key n p = same-IsPaired n _ refl refl p

marked_maps :
    (b : Bool) (key : String) (n : Notifications)
    → ((mark_repliable b key n).remote_to_local ≡ n.remote_to_local)
      × ((mark_repliable b key n).local_to_remote ≡ n.local_to_remote)
marked_maps true key n = (refl, refl)
marked_maps false key n = (refl, refl)

posted-IsPaired :
    (key title : String) (o : Option ℕ) (n : Notifications)
    → ((id : ℕ)
        → o ≡ some id
        → (0 < id)
          × ((lookup same_key key n.remote_to_local ≡ some id)
              ⊎ ((lookup same_key key n.remote_to_local ≡ none)
                  × (lookup same_id id n.local_to_remote ≡ none))))
    → IsPaired n
    → IsPaired (posted key title o n)
posted-IsPaired key title none n c p = p
posted-IsPaired key title (some id) n c p =
    let (pos, d) = c id refl in insert-IsPaired key id title n pos d p

given_id :
    (notify : ℕ → Option ℕ) (key : String) (n : Notifications)
    → IsServer notify n
    → IsPaired n
    → (id : ℕ) → notify (replaces_id key n) ≡ some id
    → (0 < id)
      × ((lookup same_key key n.remote_to_local ≡ some id)
          ⊎ ((lookup same_key key n.remote_to_local ≡ none)
              × (lookup same_id id n.local_to_remote ≡ none)))
unfolding replaces_id
given_id notify key n s p id e = elim (Option-cases (lookup same_key key n.remote_to_local)) [
  | inl new ↦ let (f, pos) = s.fresh id (rw new at e) in (pos, inr (new, f))
  | inr (old, there) ↦
      let pos = p.positive key old there in
      let q = s.keeps old id pos (rw there at e) in (omega arith, inl (there ∙ ap some (sym q)))
]

-- Mirroring a notification, new or updated, keeps the two maps inverse to one another, with a
-- server that answers Notify as its specification says.
pub mirror-IsPaired :
    (notify : ℕ → Option ℕ) (key title : String) (can_reply : Bool) (n : Notifications)
    → IsServer notify n
    → IsPaired n
    → IsPaired (mirror notify key title can_reply n)
unfolding mirror
mirror-IsPaired notify key title true n s p =
    posted-IsPaired key title (notify (replaces_id key n)) _ (given_id notify key n s p)
      (marked true key n p)
mirror-IsPaired notify key title false n s p =
    posted-IsPaired key title (notify (replaces_id key n)) _ (given_id notify key n s p)
      (marked false key n p)

member-add : (id : ℕ) (ids : List ℕ) → member same_id id (add same_id id ids) ≡ true
unfolding add member
member-add id ids = rw ((==_iff id id).1 refl) refl

closed_maps :
    (closes : Bool) (id : ℕ) (n : Notifications)
    → ((close_local closes id n).remote_to_local ≡ n.remote_to_local)
      × ((close_local closes id n).local_to_remote ≡ n.local_to_remote)
unfolding close_local
closed_maps true id n = (refl, refl)
closed_maps false id n = (refl, refl)

dismissed-IsPaired :
    (closes : Bool) (key : String) (o : Option ℕ) (n : Notifications)
    → lookup same_key key n.remote_to_local ≡ o
    → IsPaired n
    → IsPaired (dismissed closes key o n)
      × (lookup same_key key (dismissed closes key o n).remote_to_local ≡ none)
dismissed-IsPaired closes key none n e p = (p, e)
dismissed-IsPaired closes key (some id) n e p = (
  same-IsPaired cut (close_local closes id cut) (closed_maps closes id cut).0
      (closed_maps closes id cut).1 (erase-IsPaired key id n cut e refl refl p),
  ap (lookup same_key key) (closed_maps closes id cut).0
      ∙ lookup-erase same_key eq_iff key key n.remote_to_local
      ∙ rw ((eq_iff key key).1 refl) refl,
)
  where
    cut : Notifications
    cut = record n {
      remote_to_local = erase same_key key n.remote_to_local;
      local_to_remote = erase same_id id n.local_to_remote;
      titles = erase same_id id n.titles;
    }

-- A dismissal from the phone keeps two maps that are inverse to one another inverse, and the
-- notification has no mirror afterwards.
pub dismiss_locally-IsPaired :
    (closes : Bool) (key : String) (n : Notifications)
    → IsPaired n
    → IsPaired (dismiss_locally closes key n)
      × (lookup same_key key (dismiss_locally closes key n).remote_to_local ≡ none)
unfolding dismiss_locally
dismiss_locally-IsPaired closes key n p =
    dismissed-IsPaired closes key (lookup same_key key n.remote_to_local) n refl p

mirror_closed-IsPaired :
    (id reason : ℕ) (o : Option String) (n : Notifications)
    → lookup same_id id n.local_to_remote ≡ o
    → IsPaired n
    → IsPaired (mirror_closed id reason o n).1
mirror_closed-IsPaired id reason none n e p = p
mirror_closed-IsPaired id reason (some key) n e p =
    erase-IsPaired key id n _ (p.back key id e) refl refl p

closed_by_other-IsPaired :
    (id reason : ℕ) (o : Option Asker) (n : Notifications)
    → IsPaired n
    → IsPaired (closed_by_other id reason o n).1
closed_by_other-IsPaired id reason (some asker) n p = same-IsPaired n _ refl refl p
closed_by_other-IsPaired id reason none n p =
    mirror_closed-IsPaired id reason (lookup same_id id n.local_to_remote) n refl p

-- The signal that a notification was closed keeps two maps that are inverse to one another
-- inverse, whoever closed it and whatever it was.
pub on_closed-IsPaired :
    (id reason : ℕ) (n : Notifications) → IsPaired n → IsPaired (on_closed id reason n).1
unfolding on_closed
on_closed-IsPaired id reason n p = elim (Bool-cases (member same_id id n.self_closed)) [
  | inl e ↦ rw e (same-IsPaired n _ refl refl p)
  | inr e ↦ rw e (closed_by_other-IsPaired id reason (lookup same_id id n.own_actions) n p)
]

-- A mirror that the phone had dismissed is taken down with no echo: the signal that the server
-- then sends for it asks nothing of the phone and of no one else.
pub on_closed_own :
    (key : String) (id reason : ℕ) (n : Notifications)
    → lookup same_key key n.remote_to_local ≡ some id
    → (on_closed id reason (dismiss_locally true key n)).0 ≡ []
unfolding on_closed dismiss_locally close_local
on_closed_own key id reason n e = rw (e, member-add id n.self_closed) refl

-- A closed mirror is reported to the phone exactly when the user dismissed it: not when it timed
-- out, not when the daemon closed it, and not for a question of the daemon's own.
pub on_closed-dismissal :
    (id reason : ℕ) (key : String) (n : Notifications)
    → ((on_closed id reason n).0 ≡ dismissal key ∷ []) ↔ (
        (member same_id id n.self_closed ≡ false)
        × (lookup same_id id n.own_actions ≡ none)
        × (lookup same_id id n.local_to_remote ≡ some key)
        × (reason ≡ 2))
unfolding on_closed
on_closed-dismissal id reason key n = elim (Bool-cases (member same_id id n.self_closed)) [
  | inl e ↦ rw e (ground arith)
  | inr e ↦ elim (Option-cases (lookup same_id id n.own_actions)) [
    | inl w ↦ elim (Option-cases (lookup same_id id n.local_to_remote)) [
      | inl l ↦ rw (e, w, l) (ground arith)
      | inr (k, l) ↦ elim (Bool-cases (reason == 2)) [
        | inl r ↦ let q = (==_iff reason 2).0 r in rw (e, w, l, r) (ground arith)
        | inr r ↦ rw (e, w, l, r) (ground (arith, ==_iff reason 2))
      ]
    ]
    | inr (a, w) ↦ rw (e, w) (ground arith)
  ]
]
