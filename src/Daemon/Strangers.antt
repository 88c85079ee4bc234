-- ===== src/Daemon/Strangers.antt =====
-- daemon/fedoralink/daemon.py: what happens to the daemon, as a list of events.
use fedoralink.Prelude.{ℕ, ◌≡◌, String, false, Option, List, [], ◌∷◌}
use fedoralink.Json.{Fields}
use fedoralink.Auth.{Primitives}
use fedoralink.Session.{RecordCrypto}
use fedoralink.Daemon.{
  Daemon, World, send, disconnect, accept, on_tcp_connected, on_tcp_disconnected,
}
use fedoralink.Daemon.Forget.{forget_devices}
use fedoralink.Daemon.Gatekeeper.{enrollment_answered}
use fedoralink.Daemon.Dispatch.{on_packet}

-- What happens to the daemon: a packet, a socket from BlueZ, the answer to the question of the
-- enrollment, the end of the Bluetooth link or of the LAN link, `forget_devices`, a packet that a
-- plugin or the D-Bus service wants to send, and a LAN link that comes up.
pub data Event : Type 0 where
  arrived : World → String → Fields → Event
  accepted : World → String → Event
  answered : World → Option String → Event
  hung_up lan_lost forgets : World → Event
  sends : String → Fields → Event
  lan_up : RecordCrypto → Event

module _ (prim : Primitives) (digits : List ℕ → String) where
  unfoldable pub step : Event → Daemon → Daemon
  unfolding on_packet accept enrollment_answered disconnect on_tcp_disconnected forget_devices send
      on_tcp_connected
  step (arrived w t body) d = on_packet prim digits w t body d
  step (accepted w name) d = accept w name d
  step (answered w action) d = enrollment_answered prim digits w action d
  step (hung_up w) d = disconnect w d
  step (lan_lost w) d = on_tcp_disconnected prim w d
  step (forgets w) d = (forget_devices w d).1
  step (sends t body) d = (send t body d).1
  step (lan_up crypto) d = on_tcp_connected crypto d

  unfoldable pub run : List Event → Daemon → Daemon
  run [] d = d
  run (e ∷ es) d = run es (step e d)

  -- nobody is authenticated, from a state on, behind any of the events
  unfoldable pub NeverProved : List Event → Daemon → Type 0
  NeverProved [] d = d.authenticated ≡ false
  NeverProved (e ∷ es) d = (d.authenticated ≡ false) × NeverProved es (step e d)
