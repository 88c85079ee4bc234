-- ===== src/Daemon/Packets.antt =====
-- daemon/fedoralink/daemon.py: the packets among what goes out, and those at the end of a link.
use fedoralink.Prelude.{
  ◌≡◌, inl, inr, refl, ◌∙◌, ap, Bool, true, false, none, List, [], ◌∷◌, ◌++◌, if◌then◌else◌,
  Bool-cases, is_some,
}
use fedoralink.Plugins.Battery.{Notice, changed, low}
use fedoralink.Plugins.Battery
use fedoralink.Daemon.{
  Daemon, World, Effect, packet, state_changed, locked, escaped, handed, wrote, battery_low, emit,
  tcp_stop, reset, noticed, plugins_disconnected, on_disconnected, disconnect, drop_connection,
}

-- what passes between the peer and the plugins: the packets that go out, and those that are handed on
unfoldable pub packets : List Effect → List Effect
packets [] = []
packets (packet lan t body ∷ es) = packet lan t body ∷ packets es
packets (state_changed ∷ es) = packets es
packets (locked ∷ es) = packets es
packets (escaped ∷ es) = packets es
packets (handed t body ∷ es) = handed t body ∷ packets es
packets (wrote w ∷ es) = packets es
packets (battery_low n ∷ es) = packets es

pub quiet : (xs es : List Effect) → packets es ≡ [] → packets (xs ++ es) ≡ packets xs
unfolding packets
quiet [] es q = q
quiet (packet lan t body ∷ xs) es q = ap (λ r. packet lan t body ∷ r) (quiet xs es q)
quiet (state_changed ∷ xs) es q = quiet xs es q
quiet (locked ∷ xs) es q = quiet xs es q
quiet (escaped ∷ xs) es q = quiet xs es q
quiet (handed t body ∷ xs) es q = ap (λ r. handed t body ∷ r) (quiet xs es q)
quiet (wrote w ∷ xs) es q = quiet xs es q
quiet (battery_low n ∷ xs) es q = quiet xs es q

noticed_quiet : (ns : List Notice) → packets (noticed ns) ≡ []
unfolding packets
noticed_quiet [] = refl
noticed_quiet (changed ∷ ns) = noticed_quiet ns
noticed_quiet (low n ∷ ns) = noticed_quiet ns

tail_quiet :
    (a b : Bool)
    → packets ((if a then state_changed ∷ [] else []) ++ (if b then locked ∷ [] else [])) ≡ []
unfolding packets
tail_quiet true true = refl
tail_quiet true false = refl
tail_quiet false true = refl
tail_quiet false false = refl

state_quiet : (xs : List Effect) → packets (xs ++ state_changed ∷ []) ≡ packets xs
unfolding packets
state_quiet xs = quiet xs (state_changed ∷ []) refl

plugins_quiet : (w : World) (d : Daemon) → packets (plugins_disconnected w d).out ≡ packets d.out
unfolding plugins_disconnected reset
plugins_quiet w d =
    quiet (d.out ++ noticed (Battery.on_disconnected d.battery).0) _ (tail_quiet _ _)
    ∙ quiet d.out (noticed (Battery.on_disconnected d.battery).0)
        (noticed_quiet (Battery.on_disconnected d.battery).0)

tcp_quiet : (d : Daemon) → packets (tcp_stop d).out ≡ packets d.out
unfolding tcp_stop emit
tcp_quiet d = elim (Bool-cases (is_some d.tcp.link)) [
  | inl e ↦ rw e (state_quiet d.out)
  | inr e ↦ rw e refl
]

pub disconnected_quiet :
    (w : World) (d : Daemon) → packets (on_disconnected w d).out ≡ packets d.out
unfolding on_disconnected emit
disconnected_quiet w d =
    let d1 = record d { connected = false; authenticated = false; peer_device_id = none } in
    let d2 = record (tcp_stop d1) {
      device_name = "";
      battery = record (tcp_stop d1).battery { level = none; charging = false };
    } in
    state_quiet (plugins_disconnected w d2).out ∙ plugins_quiet w d2 ∙ tcp_quiet d1

pub drop_quiet : (w : World) (d : Daemon) → packets (drop_connection w d).out ≡ packets d.out
unfolding drop_connection disconnect
drop_quiet w d = elim (Bool-cases d.rfcomm) [
  | inl e ↦ rw e (disconnected_quiet w (record d { authenticated = false; rfcomm = false }))
  | inr e ↦ rw e refl
]
