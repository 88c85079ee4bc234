-- ===== src/Bus/Bridge.antt =====
-- daemon/fedoralink/dbus_service.py: where the content of the clipboard goes.
use fedoralink.Prelude.{
  ◌≡◌, inl, inr, refl, sym, ◌∙◌, String, Bool, true, false, Option, none, some, List, [], ◌∷◌, ◌++◌,
  str_eq, if◌then◌else◌, arith, Bool-cases,
}
use fedoralink.Json.{Fields, get, as_text}
use fedoralink.Framing.Codec.{All}
use fedoralink.Plugins.Clipboard.{Write, to_phone, to_shell, to_wl_copy, set_local}
use fedoralink.Plugins.Clipboard
use fedoralink.Bus.{
  Act, clipboard_changed, reply_requested, properties_changed, shutdown, Service, no_service, start,
  on_bus_acquired, on_name_lost, clear_bridge_watch, stop, set_bridge, on_bridge_vanished,
  emit_clipboard, Event, started, acquired, lost, stopped, called, vanished, if_watched, step, run,
}

-- An active bridge has a sender, and that one is watched; a registered object is on a bus.
record IsWatched (s : Service) : Type 0 where
  on_bus : s.registered ≡ true → s.has_bus ≡ true
  bridged : s.clipboard_bridge_active ≡ true → s.has_bus ≡ true
  watching :
      s.clipboard_bridge_active ≡ true
      → (name : String) × (s.bridge_sender ≡ some name) × (s.watched ≡ some name)

step-IsWatched : (e : Event) (s : Service) → IsWatched s → IsWatched (step e s)
unfolding step start on_bus_acquired on_name_lost stop clear_bridge_watch set_bridge
    on_bridge_vanished
step-IsWatched started s w = record {
  on_bus = w.on_bus;
  bridged = w.bridged;
  watching = w.watching;
}
step-IsWatched acquired s w = record {
  on_bus = λ e. refl;
  bridged = λ e. refl;
  watching = w.watching;
}
step-IsWatched lost s w = w
step-IsWatched stopped s w = elim (Bool-cases s.has_bus) [
  | inl e ↦
      rw e
        (record { on_bus = λ q. refl; bridged = λ q. ground arith; watching = λ q. ground arith })
  | inr e ↦ rw e (record {
    on_bus = λ q. sym e ∙ w.on_bus q;
    bridged = λ q. ground arith;
    watching = λ q. ground arith;
  })
]
step-IsWatched (called sender active) s w = go s.registered refl
  where
    on : Service
    on = record s { clipboard_bridge_active = true; bridge_sender = some sender; watched = none }

    watch : Bool → Service
    watch b = if b then record on { watched = some sender } else on

    registered_on : (b : Bool) → s.has_bus ≡ b → s.has_bus ≡ true → IsWatched (watch b)
    registered_on true e q = record {
      on_bus = w.on_bus;
      bridged = λ _. q;
      watching = λ _. (sender, refl, refl);
    }
    registered_on false e q = let z : false ≡ true = sym e ∙ q in ground arith

    set : (a : Bool) → s.has_bus ≡ true → IsWatched (set_bridge sender a s)
    set true q = registered_on s.has_bus refl q
    set false q = record { on_bus = w.on_bus; bridged = λ z. q; watching = λ z. ground arith }

    go : (r : Bool) → s.registered ≡ r → IsWatched (if r then set_bridge sender active s else s)
    go true e = set active (w.on_bus e)
    go false e = w
step-IsWatched (vanished name) s w = go s.watched
  where
    go : (o : Option String) → IsWatched (if_watched o name s)
    go none = w
    go (some n) = elim (Bool-cases (str_eq n name)) [
      | inl e ↦
          rw e (record {
            on_bus = w.on_bus;
            bridged = λ q. ground arith;
            watching = λ q. ground arith;
          })
      | inr e ↦ rw e w
    ]

run_from-IsWatched : (es : List Event) (s : Service) → IsWatched s → IsWatched (run es s)
unfolding run
run_from-IsWatched [] s w = w
run_from-IsWatched (e ∷ es) s w = run_from-IsWatched es (step e s) (step-IsWatched e s w)

run-IsWatched : (es : List Event) → IsWatched (run es no_service)
run-IsWatched es = run_from-IsWatched es no_service (record {
  on_bus = λ e. ground arith;
  bridged = λ e. ground arith;
  watching = λ e. ground arith;
})

-- what the service does for the clipboard's plugin
abbrev pub signalled : Service → List Write → List Act
signalled s [] = []
signalled s (to_shell content ∷ more) = emit_clipboard content s ++ signalled s more
signalled s (to_phone content ∷ more) = signalled s more
signalled s (to_wl_copy content ∷ more) = signalled s more

-- a signal with the clipboard's content goes to one name, which is watched
abbrev pub IsPrivate : Service → Act → Type 0
IsPrivate s (clipboard_changed to content) =
    (name : String) × (to ≡ some name) × (s.watched ≡ some name)
IsPrivate s (reply_requested _ _ _) = Unit
IsPrivate s (properties_changed _) = Unit
IsPrivate s shutdown = Unit

emitted-IsPrivate :
    (s : Service) (content : String)
    → IsWatched s
    → s.clipboard_bridge_active ≡ true
    → All (IsPrivate s) (emit_clipboard content s ++ [])
unfolding emit_clipboard
emitted-IsPrivate s content w a = elim (Bool-cases s.has_bus) [
  | inl e ↦ rw e (w.watching a, tt)
  | inr e ↦ rw e tt
]

-- After any events from the start of the service on, a clipboard packet from the phone makes the
-- service send its content to nobody but the bridge that is registered, whose name is watched.
pub on_packet-IsPrivate :
    (es : List Event) (body : Fields) (seen : Option String)
    → let s = run es no_service in
      All (IsPrivate s) (signalled s (Clipboard.on_packet s.clipboard_bridge_active body seen).0)
unfolding Clipboard.on_packet set_local
on_packet-IsPrivate es body seen = go (as_text (get "content" body))
  where
    s : Service
    s = run es no_service

    put :
        (content : String) (b : Bool)
        → s.clipboard_bridge_active ≡ b
        → All (IsPrivate s) (signalled s (set_local b content ∷ []))
    put content true e = emitted-IsPrivate s content (run-IsWatched es) e
    put content false e = tt

    go :
        (o : Option String)
        → All (IsPrivate s) (signalled s (Clipboard.receive s.clipboard_bridge_active seen o).0)
    go none = tt
    go (some content) = elim (Bool-cases (Clipboard.is_seen content seen)) [
      | inl e ↦ rw e tt
      | inr e ↦ rw e (put content s.clipboard_bridge_active refl)
    ]
