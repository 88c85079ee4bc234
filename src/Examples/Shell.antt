-- ===== src/Examples/Shell.antt =====
-- The desktop: its bus, its pointer, its alarm and its command line.
use fedoralink.Prelude.{◌≤◌, ◌≡◌, refl, Bool, true, false, none, some, List, [], ◌∷◌, arith}
use fedoralink.Json.{str, int, Fields, end, field}
use fedoralink.Framing.Codec.{All}
use fedoralink.Protocol.{serialize}
use fedoralink.Session.{new_crypto}
use fedoralink.Link.{Connection, new_connection, took, flush, send_plain}
use fedoralink.Link.Calls.{Calls}
use fedoralink.Link.Bluetooth.{receive_plain, send_all_plain, receive_plain-send_all_plain}
use fedoralink.Files.{idle_files}
use fedoralink.Files.Pump.{file}
use fedoralink.Input.{
  create_session, fresh_input, Event, started, arrived, responded, called, find, step, run,
  on_packet, ensure_session, call_with_response, start, on_call_done,
}
use fedoralink.Input.Consent.Granted.{IsPermitted, run-IsPermitted}
use fedoralink.Input.Refusal.{acts_of, acts_of-on_response}
use fedoralink.Alert.{Alerter, rings_for, start_ringing, ring, count}
use fedoralink.Alert.Silence.{ring-start_ringing}
use fedoralink.Audio
use fedoralink.Bus
use fedoralink.Bus.{no_service}
use fedoralink.Bus.Bridge.{signalled, IsPrivate, on_packet-IsPrivate}
use fedoralink.Bus.Calls.{Desk, send_reply, method_call}
use fedoralink.Bus.Guard.{method_call-packets}
use fedoralink.Daemon.Packets.{packets}
use fedoralink.Daemon.Dispatch
use fedoralink.Daemon.Strangers
use fedoralink.Cli.{target, send, send_several}
use fedoralink.Plugins.Clipboard
use fedoralink.Examples.{ping, one_object, ping-IsPacket}
use fedoralink.Examples.Peers.{challenged, world}

abbrev link : Connection
link = new_connection (new_crypto (1 ∷ []) (2 ∷ []))

-- one packet, of which the socket takes two bytes and then the last
abbrev one_call : Calls
one_call = (ping, took 2 ∷ took 5 ∷ []) ∷ []

receive_plain-send_all_plain_example :
    receive_plain (one_object ping) ((b'{' ∷ []) ∷ (b'}' ∷ 10 ∷ []) ∷ []) link ≡ (ping ∷ [], link)
unfolding new_connection new_crypto send_all_plain send_plain flush serialize
receive_plain-send_all_plain_example =
    receive_plain-send_all_plain (one_object ping) one_call ((b'{' ∷ []) ∷ (b'}' ∷ 10 ∷ []) ∷ [])
      link link refl refl refl refl (refl, (refl, tt)) (ping-IsPacket, tt) refl

abbrev swipe : Fields
swipe = field "kind" (str "motion") (field "dx" (int 3) (field "dy" (int 4) end))

-- a swipe opens the dialog, which is granted
abbrev granted : List Event
granted =
    started true
    ∷ arrived true true swipe
    ∷ responded 1 0 (some "s")
    ∷ responded 2 0 none
    ∷ responded 3 0 none
    ∷ []

run-IsPermitted_example :
    All (IsPermitted granted) (step (arrived true true swipe) (run granted fresh_input)).0
run-IsPermitted_example = run-IsPermitted granted (arrived true true swipe)

-- a swipe opens the dialog
abbrev asking : List Event
asking = started true ∷ arrived true true swipe ∷ called true ∷ []

acts_of-on_response_example :
    acts_of
      (arrived true true swipe ∷ arrived true true swipe ∷ [])
      (step (responded 1 1 none) (run asking fresh_input)).1
    ≡ ([], (step (responded 1 1 none) (run asking fresh_input)).1)
unfolding run step start on_packet on_call_done ensure_session call_with_response find
acts_of-on_response_example =
    acts_of-on_response asking 1 none create_session
      (arrived true true swipe ∷ arrived true true swipe ∷ []) (tt, (tt, (refl, tt))) refl
      (tt, (tt, tt))

abbrev calm : Alerter
calm = record { has_player = true; ringing = false; remaining = 0 }

abbrev six_turns : List Bool
six_turns = true ∷ true ∷ false ∷ true ∷ true ∷ true ∷ []

ring-start_ringing_example :
    ((ring six_turns (start_ringing true 10 calm).1).1.ringing ≡ false)
    × (count (start_ringing true 10 calm).0 (ring six_turns (start_ringing true 10 calm).1).0
        ≤ rings_for 10)
unfolding rings_for
ring-start_ringing_example = ring-start_ringing true six_turns 10 calm (omega arith)

-- a packet of a stranger, a packet for it, and the end of its link
abbrev unheard : List Strangers.Event
unheard =
    Strangers.arrived world "fedoralink.notification" end
    ∷ Strangers.sends "fedoralink.clipboard" end
    ∷ Strangers.hung_up world
    ∷ []

abbrev linked : List Audio.Event
linked = Audio.started true ∷ Audio.connected true "/dev_AA" ∷ []

abbrev transport_added : Audio.Event
transport_added =
    Audio.interfaces_added false (Audio.object "/dev_AA/fd0" ("org.bluez.MediaTransport1" ∷ []))

run-IsAnswer_example :
    All
      (Audio.IsAnswer transport_added
        (Audio.last_phone (transport_added ∷ []) (Audio.last_phone linked none)))
      (Audio.step transport_added (Audio.run linked Audio.idle_audio)).0
run-IsAnswer_example = Audio.run-IsAnswer linked transport_added

abbrev bridged : List Bus.Event
bridged = Bus.started ∷ Bus.acquired ∷ Bus.called ":1.5" true ∷ []

abbrev copied : Fields
copied = field "content" (str "text") end

on_packet-IsPrivate_example : All (IsPrivate (Bus.run bridged no_service)) (
    signalled
      (Bus.run bridged no_service)
      (Clipboard.on_packet (Bus.run bridged no_service).clipboard_bridge_active copied none).0)
on_packet-IsPrivate_example = on_packet-IsPrivate bridged copied none

-- a phone that has connected and not yet proved itself
abbrev stranger : Desk
stranger = record { daemon = challenged; files = idle_files; service = no_service }

method_call-packets_example :
    packets
      (method_call
        (λ s. 4)
        (λ s. s)
        "uuid"
        world
        none
        ":1.5"
        (send_reply "k" "yes")
        stranger).desk.daemon.out
    ≡ packets []
method_call-packets_example =
    method_call-packets (λ s. 4) (λ s. s) "uuid" world none ":1.5" (send_reply "k" "yes") stranger
      refl

-- a phone that has proved itself
abbrev friend : Desk
friend = record {
  daemon = record challenged { authenticated = true };
  files = idle_files;
  service = no_service;
}

send_several_example :
    (send
      (λ s. 4)
      (λ s. s)
      "uuid"
      world
      none
      ":1.7"
      (target "t" "a" (file (1 ∷ [])) ∷ target "u" "b" (file (2 ∷ [])) ∷ [])
      friend).0
    ≡ 1
send_several_example =
    send_several (λ s. 4) (λ s. s) "uuid" world none ":1.7" (target "t" "a" (file (1 ∷ [])))
      (target "u" "b" (file (2 ∷ []))) [] friend
