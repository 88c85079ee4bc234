-- ===== src/Daemon/Forget/Quiet.antt =====
-- daemon/fedoralink/daemon.py: the packets of `forget_devices`.
use fedoralink.Prelude.{true, ◌≡◌, inl, inr, refl, [], ◌∷◌, Bool-cases}
use fedoralink.Devices.{known_devices}
use fedoralink.Daemon.{Daemon, World, escaped, emit}
use fedoralink.Daemon.Forget.{forget_devices, forget_all}
use fedoralink.Daemon.Packets.{packets, quiet, drop_quiet}

pub forget_quiet : (w : World) (d : Daemon) → packets (forget_devices w d).1.out ≡ packets d.out
unfolding forget_devices emit packets
forget_quiet w d =
    let f = forget_all w.disk (known_devices d.store.known) d.store in
    elim (Bool-cases f.stopped) [
      | inl e ↦ rw e (quiet d.out (escaped ∷ []) refl)
      | inr e ↦ elim (Bool-cases d.connected) [
        | inl c ↦ rw (e, c) (drop_quiet w (record d { store = f.left_over; connected = true }))
        | inr c ↦ rw (e, c) refl
      ]
    ]
