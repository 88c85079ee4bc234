-- ===== src/Plugins/Clipboard.antt =====
-- daemon/fedoralink/plugins/clipboard.py. The plugin's state is `_last_seen`.
use fedoralink.Prelude.{
  ℕ, ◌*◌, ap, sym, ◌≡◌, refl, String, Bool, true, false, not, ◌&&◌, Option, none, some, List, [],
  ◌∷◌, ltb, str_eq, eq_refl, eq_iff, if◌then◌else◌, arith, inl, inr, Bool-cases,
}
use fedoralink.Json.{Fields, get, as_text}

abbrev pub max_clipboard_bytes : ℕ
max_clipboard_bytes = 64 * 1024

-- what the plugin does outside: the content for the phone, or for the selection of the desktop,
-- through the shell's bridge or through wl-copy
pub data Write : Type 0 where
  to_phone to_shell to_wl_copy : String → Write

abbrev pub is_seen : String → Option String → Bool
is_seen content none = false
is_seen content (some seen) = str_eq content seen

-- `_set_local_clipboard`
unfoldable pub set_local : Bool → String → Write
set_local bridge content = if bridge then to_shell content else to_wl_copy content

abbrev pub receive : Bool → Option String → Option String → List Write × Option String
receive bridge seen none = ([], seen)
receive bridge seen (some content) =
    if is_seen content seen then ([], seen) else (set_local bridge content ∷ [], some content)

-- `on_packet`
unfoldable pub on_packet : Bool → Fields → Option String → List Write × Option String
unfolding set_local
on_packet bridge body seen = receive bridge seen (as_text (get "content" body))

-- `len(content.encode("utf-8"))` is an argument: `bytes content`
module _ (bytes : String → ℕ) where
  -- `set_from_shell`
  unfoldable pub set_from_shell : String → Bool → Option String → List Write × Option String
  set_from_shell content force seen =
      if str_eq content ""
      then ([], seen)
      else if not force && is_seen content seen
      then ([], seen)
      else if ltb max_clipboard_bytes (bytes content)
      then ([], seen)
      else (to_phone content ∷ [], some content)

-- `send_current`
unfoldable pub send_current : Option String → List Write × Bool
send_current none = ([], false)
send_current (some content) =
    if str_eq content "" then ([], false) else (to_phone content ∷ [], true)

-- `on_disconnected`
unfoldable pub on_disconnected : Option String → Option String
on_disconnected seen = none

seen_after_packet :
    (bridge : Bool) (content : String) (body : Fields) (seen : Option String)
    → as_text (get "content" body) ≡ some content
    → (on_packet bridge body seen).1 ≡ some content
unfolding on_packet
seen_after_packet bridge content body none e = rw e refl
seen_after_packet bridge content body (some old) e = elim (Bool-cases (str_eq content old)) [
  | inl q ↦ rw (e, q) (ap some (sym ((eq_iff content old).0 q)))
  | inr q ↦ rw (e, q) refl
]

-- No echo: where the shell reports what the phone just sent as the desktop's new clipboard, it is
-- not sent back.
pub set_from_shell-on_packet :
    (bytes : String → ℕ) (bridge : Bool) (content : String) (body : Fields) (seen : Option String)
    → as_text (get "content" body) ≡ some content
    → set_from_shell bytes content false (on_packet bridge body seen).1 ≡ ([], some content)
unfolding set_from_shell
set_from_shell-on_packet bytes bridge content body seen e =
    rw (seen_after_packet bridge content body seen e, eq_refl content)
      (elim (Bool-cases (str_eq content "")) [ inl q ↦ rw q refl | inr q ↦ rw q refl ])

-- No echo the other way: what the desktop sent is not written to its own clipboard when the phone
-- sends it back.
pub on_packet-set_from_shell :
    (bytes : String → ℕ) (bridge force : Bool) (content : String) (body : Fields)
    (seen : Option String)
    → as_text (get "content" body) ≡ some content
    → (set_from_shell bytes content force seen).0 ≡ to_phone content ∷ []
    → on_packet bridge body (set_from_shell bytes content force seen).1 ≡ ([], some content)
unfolding on_packet set_from_shell
on_packet-set_from_shell bytes bridge force content body seen e sent =
    elim (Bool-cases (str_eq content "")) [
      | inl q ↦ absurd (rw q at sent)
      | inr q ↦ elim (Bool-cases (not force && is_seen content seen)) [
        | inl w ↦ absurd (rw (q, w) at sent)
        | inr w ↦ elim (Bool-cases (ltb max_clipboard_bytes (bytes content))) [
          | inl z ↦ absurd (rw (q, w, z) at sent)
          | inr z ↦ rw (e, q, w, z) (rw (eq_refl content) refl)
        ]
      ]
    ]
  where
    absurd :
        [] ≡ to_phone content ∷ []
        → on_packet bridge body (set_from_shell bytes content force seen).1 ≡ ([], some content)
    absurd h = ground arith
