-- ===== src/Plugins/Media.antt =====
-- daemon/fedoralink/plugins/media.py.
use mathlib.Core.Path.{subst}
use fedoralink.Prelude.{
  ◌≡◌, ◌↔◌, refl, String, Bool, true, false, not, ◌||◌, Option, none, some, str_eq, eq_iff,
  if◌then◌else◌, arith, inl, inr, ap, sym, Bool-cases,
}
use fedoralink.Json.{Json, Fields, get, truthy, as_str}

pub record Media : Type 0 where
  pub has_session : Bool
  pub playing : Bool
  pub title : String
  pub artist : String

abbrev pub same_flag : Bool → Bool → Bool
same_flag true b = b
same_flag false b = not b

abbrev pub cleared : Media
cleared = record { has_session = false; playing = false; title = ""; artist = "" }

-- `_clear`; the Boolean says whether `emit_changed` is called
unfoldable pub clear : Media → Bool × Media
clear m =
    if not (m.has_session || (not (str_eq m.title "") || not (str_eq m.artist "")))
    then (false, m)
    else (true, cleared)

-- `body.get(key) or ""`, if that is a string
unfoldable pub text_or_empty : Json → Option String
text_or_empty v = if truthy v then as_str v else some ""

abbrev pub differs : Bool → String → String → Media → Bool
differs playing title artist m =
    not m.has_session
    || (not (same_flag playing m.playing)
        || (not (str_eq title m.title) || not (str_eq artist m.artist)))

abbrev pub show : Bool → Option String → Option String → Media → Bool × Media
show playing none _ m = (false, m)
show playing (some title) none m = (false, m)
show playing (some title) (some artist) m = (
  differs playing title artist m,
  record { has_session = true; playing = playing; title = title; artist = artist },
)

-- `on_packet`
unfoldable pub on_packet : Fields → Media → Bool × Media
unfolding clear text_or_empty
on_packet body m =
    if truthy (get "hasSession" body)
    then show (truthy (get "playing" body)) (text_or_empty (get "title" body))
        (text_or_empty (get "artist" body)) m
    else clear m

unfoldable pub is_action : String → Bool
is_action a =
    str_eq a "play"
    || (str_eq a "pause" || (str_eq a "playpause" || (str_eq a "next" || str_eq a "previous")))

-- `command`: the action that is sent, if any
unfoldable pub command : String → Option String
unfolding is_action
command action = if is_action action then some action else none

same_flag_iff : (a b : Bool) → (same_flag a b ≡ true) ↔ (a ≡ b)
same_flag_iff true b = ground arith
same_flag_iff false true = ground arith
same_flag_iff false false = ground arith

differs_iff :
    (playing : Bool) (title artist : String) (m : Media)
    → (differs playing title artist m ≡ false)
      ↔ ((m.has_session ≡ true) × (playing ≡ m.playing) × (title ≡ m.title) × (artist ≡ m.artist))
differs_iff playing title artist m =
    ground (arith, same_flag_iff playing m.playing, eq_iff title m.title, eq_iff artist m.artist)

ext :
    (m : Media) (s p : Bool) (t a : String)
    → s ≡ m.has_session
    → p ≡ m.playing
    → t ≡ m.title
    → a ≡ m.artist
    → record { has_session = s; playing = p; title = t; artist = a } ≡ m
ext m s p t a es ep et ea =
    λ i. record { has_session = es i; playing = ep i; title = et i; artist = ea i }

show-changed :
    (playing : Bool) (t a : Option String) (m : Media)
    → ((show playing t a m).0 ≡ false) ↔ ((show playing t a m).1 ≡ m)
show-changed playing none a m = ground arith
show-changed playing (some t) none m = ground arith
show-changed playing (some t) (some a) m = (
  (λ e. let (h, p, q, r) = (differs_iff playing t a m).0 e in ext m true playing t a (sym h) p q r),
  λ e. (differs_iff playing t a m).1 (
    sym (ap (λ x. x.has_session) e),
    ap (λ x. x.playing) e,
    ap (λ x. x.title) e,
    ap (λ x. x.artist) e,
  ),
)

is_clear : Media → Bool
is_clear m = not (m.has_session || (not (str_eq m.title "") || not (str_eq m.artist "")))

cleared-is_clear : (m : Media) → cleared ≡ m → is_clear m ≡ true
unfolding is_clear
cleared-is_clear m e = subst (λ x. is_clear x ≡ true) e refl

clear-changed : (m : Media) → ((clear m).0 ≡ false) ↔ ((clear m).1 ≡ m)
unfolding clear is_clear
clear-changed m = elim (Bool-cases (is_clear m)) [
  | inl e ↦ rw e (ground arith)
  | inr e ↦ let h = cleared-is_clear m in rw e (ground arith)
]

-- The shell is told of a change exactly when a packet changes what is shown.
pub on_packet-changed :
    (body : Fields) (m : Media) → ((on_packet body m).0 ≡ false) ↔ ((on_packet body m).1 ≡ m)
unfolding on_packet
on_packet-changed body m = elim (Bool-cases (truthy (get "hasSession" body))) [
  | inl e ↦ rw e (
      show-changed (truthy (get "playing" body)) (text_or_empty (get "title" body))
        (text_or_empty (get "artist" body)) m)
  | inr e ↦ rw e (clear-changed m)
]
