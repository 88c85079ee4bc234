-- ===== src/Lib.antt =====
-- The daemon of FedoraLink: daemon/fedoralink, the desktop's half of a link with a phone.
--
-- The daemon talks to one phone over Bluetooth, and over the LAN once the phone is authenticated.
-- Packets are lines of JSON. `AuthPlugin` decides whether a peer may speak, by a challenge under a
-- secret that the device store keeps; behind it the daemon hands packets to its plugins, and may
-- offer the phone a LAN link, on which the same packets travel in sealed records.
--
-- Which file models which part:
--   Protocol       protocol.py: `make_packet`, `serialize`, `PacketReader`
--   Framing        the loop that `PacketReader.feed` and `RecordReader.feed` share
--   Auth           auth.py
--   Session        session.py: `verify_hello`, `hkdf`, `derive_keys`, `RecordCrypto`, `RecordReader`
--   Link           tcp.py, `TcpConnection`, and transport.py, `Connection`, in Link/Bluetooth
--   Upgrade        tcp.py, `TcpTransport`: offers, and the handshake of a LAN peer
--   Daemon         daemon.py, and plugins/auth.py in Daemon/Gatekeeper; every sequence of its events
--                  in Daemon/Strangers
--   Notification   plugins/notification.py; the packets of the phone in Notification/Inbound
--   Plugins        plugins/battery.py, clipboard.py, media.py and presence.py
--   Devices        devices.py
--   Config         config.py
--   Transfers      transfers.py
--   Files          plugins/files.py: `FilesPlugin`; its sending half in Files/Pump, every sequence of
--                  its events in Files/Slots/Events, and two plugins that talk in Files/Whole
--   Input          plugins/remote_input.py: `RemoteInputPlugin`
--   Alert          alert.py, `Alerter`, and plugins/ping.py
--   Audio          plugins/audio.py
--   Bus            dbus_service.py; its methods, and `try_reconnect` of daemon.py, in Bus/Calls
--   Cli            cli.py
--   Prelude, Json, BigEndian   what the parts share
--   Examples       concrete runs
--
-- How the code is modelled. A handler is a function from the state before to the state behind, with
-- what it asks of others as values: packets, D-Bus calls and signals, and exceptions that it lets through.
-- What the machine answers inside a handler (sockets, the disk, the notification server, random
-- bytes) is an argument. Bytes are natural numbers. The json module, base64, hmac, hashlib and
-- AES-GCM are records of functions; what is asked of them are hypotheses where a theorem needs them.
--
-- Bounds and fuel. The loop of `feed` runs on one more turn than there are bytes in its buffer,
-- which is enough since a turn takes a byte or more. `hkdf` runs on one more round than the bytes
-- that it is asked for, and has the ValueError of a counter over 255. `unique_path` tries the 998
-- names of the source. Counters and lengths of records keep the widths of `to_bytes` and `struct`.
--
-- `pump` is run on fuel, of which more turns than the file has bytes are enough. The turns of the
-- ring's timer are a list, and `rings_for` of them are enough.
--
-- Not modelled: of daemon.py starting and shutting down; of notification.py a key of a notification
-- that is a number, and the subscriptions to signals; of cli.py what is printed, and `status`; the
-- texts of messages, the folder for downloads and the base class of the plugins. An `unlink` of a
-- .part file does not fail, where `discard` would let its OSError through. A write that fails
-- inside `Daemon.send` is the event of the closed link behind it. A file that is sent is read as it
-- was when it was opened. The phone's half and the shell's extension are in other languages.
pub mod Prelude
pub mod Json
pub mod Framing
pub mod BigEndian
pub mod Protocol
pub mod Auth
pub mod Session
pub mod Link
pub mod Config
pub mod Devices
pub mod Transfers
pub mod Notification
pub mod Plugins
pub mod Upgrade
pub mod Files
pub mod Input
pub mod Alert
pub mod Audio
pub mod Daemon
pub mod Bus
pub mod Cli
pub mod Examples
