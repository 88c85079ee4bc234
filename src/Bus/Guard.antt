-- ===== src/Bus/Guard.antt =====
-- daemon/fedoralink/dbus_service.py: the packets that a method call makes the daemon send.
use fedoralink.Prelude.{
  ℕ, ◌≡◌, refl, ◌∙◌, ap, String, Bool, true, false, Option, none, some, List, [], ◌∷◌, ◌++◌,
}
use fedoralink.Json.{Json, str, Fields, as_text}
use fedoralink.Framing.Codec.{All}
use fedoralink.Plugins.Clipboard.{Write, to_phone, to_shell, to_wl_copy}
use fedoralink.Plugins.Clipboard
use fedoralink.Plugins.Media
use fedoralink.Notification.{Request, dismissal, action, reply_text, reply_box, answer}
use fedoralink.Notification
use fedoralink.Transfers.Outgoing.{Outgoing}
use fedoralink.Daemon.{Daemon, World, is_pre_auth, send}
use fedoralink.Daemon.Packets.{packets}
use fedoralink.Daemon.Forget.Quiet.{forget_quiet}
use fedoralink.Files.{
  Files, Act, tell, progress, take_back, released, cancel_text, cancel_remote, Receiving,
}
use fedoralink.Files
use fedoralink.Files.Pump.{Found, send_file, cancel, drop_incoming, drop_outgoing, said}
use fedoralink.Alert
use fedoralink.Bus.Calls.{
  BondedDevice, Desk, Method, ping, stop_ringing, send_clipboard, cancel_transfer, reconnect,
  forget, list_devices, set_clipboard, sends_file, media_command, send_reply, set_clipboard_bridge,
  other, Outbound, of_ring, of_files, of_clipboard, of_media, of_reply, send_all, method_call,
}

-- none of the packets belongs to the authentication
abbrev IsGuarded : String × Fields → Type 0
IsGuarded (t, body) = is_pre_auth t ≡ false

send_refused :
    (t : String) (body : Fields) (d : Daemon)
    → d.authenticated ≡ false
    → is_pre_auth t ≡ false
    → (send t body d).1 ≡ d
unfolding send
send_refused t body d a p = simp (a, p)

sends_nothing :
    (ps : Outbound) (d : Daemon) → d.authenticated ≡ false → All IsGuarded ps → send_all ps d ≡ d
unfolding send_all
sends_nothing [] d a g = refl
sends_nothing ((t, body) ∷ ps) d a (g, gs) =
    ap (send_all ps) (send_refused t body d a g) ∙ sends_nothing ps d a gs

ring-IsGuarded : (on : Bool) → All IsGuarded (of_ring (Alert.ask_phone on))
unfolding of_ring Alert.ask_phone is_pre_auth
ring-IsGuarded on = (refl, tt)

clipboard-IsGuarded : (ws : List Write) → All IsGuarded (of_clipboard ws)
unfolding of_clipboard is_pre_auth
clipboard-IsGuarded [] = tt
clipboard-IsGuarded (to_phone content ∷ ws) = (refl, clipboard-IsGuarded ws)
clipboard-IsGuarded (to_shell content ∷ ws) = clipboard-IsGuarded ws
clipboard-IsGuarded (to_wl_copy content ∷ ws) = clipboard-IsGuarded ws

media-IsGuarded : (o : Option String) → All IsGuarded (of_media o)
unfolding of_media is_pre_auth
media-IsGuarded none = tt
media-IsGuarded (some a) = (refl, tt)

reply-IsGuarded : (rs : List Request) → All IsGuarded (of_reply rs)
unfolding of_reply is_pre_auth
reply-IsGuarded [] = tt
reply-IsGuarded (reply_text key content ∷ rs) = (refl, reply-IsGuarded rs)
reply-IsGuarded (dismissal k ∷ rs) = reply-IsGuarded rs
reply-IsGuarded (action k a ∷ rs) = reply-IsGuarded rs
reply-IsGuarded (reply_box k t ∷ rs) = reply-IsGuarded rs
reply-IsGuarded (answer a o ∷ rs) = reply-IsGuarded rs

joined_fine :
    (xs ys : List Act)
    → All IsGuarded (of_files xs)
    → All IsGuarded (of_files ys)
    → All IsGuarded (of_files (xs ++ ys))
unfolding of_files
joined_fine [] ys g h = h
joined_fine (Files.packet t body ∷ xs) ys (g, gs) h = (g, joined_fine xs ys gs h)
joined_fine (tell _ ∷ xs) ys g h = joined_fine xs ys g h
joined_fine (progress _ _ ∷ xs) ys g h = joined_fine xs ys g h
joined_fine (take_back _ ∷ xs) ys g h = joined_fine xs ys g h
joined_fine (released _ _ ∷ xs) ys g h = joined_fine xs ys g h
joined_fine (Files.escaped ∷ xs) ys g h = joined_fine xs ys g h

cancel_remote-IsGuarded :
    (id : Json) (reason : String) → All IsGuarded (of_files (cancel_remote id reason))
unfolding cancel_remote of_files is_pre_auth
cancel_remote-IsGuarded id reason = go (as_text id)
  where
    go : (o : Option String) → All IsGuarded (of_files (cancel_text o reason))
    go none = tt
    go (some i) = (refl, tt)

cancel-IsGuarded : (f : Files) → All IsGuarded (of_files (cancel f).1.0)
unfolding cancel of_files
cancel-IsGuarded f =
    joined_fine (drop_incoming f.incoming) _ (into f.incoming)
      (joined_fine (drop_outgoing f.outgoing) _ (out f.outgoing) (told f.incoming f.outgoing))
  where
    into : (i : Option Receiving) → All IsGuarded (of_files (drop_incoming i))
    into none = tt
    into (some r) =
        joined_fine (cancel_remote (str r.transfer.id) "cancelled on the PC") _
          (cancel_remote-IsGuarded (str r.transfer.id) "cancelled on the PC") tt

    out : (o : Option Outgoing) → All IsGuarded (of_files (drop_outgoing o))
    out none = tt
    out (some t) = cancel_remote-IsGuarded (str t.id) "cancelled on the PC"

    told : (i : Option Receiving) (o : Option Outgoing) → All IsGuarded (of_files (said i o))
    told none none = tt
    told (some _) _ = tt
    told none (some _) = tt

send_file-acts :
    (a : Bool) (id name : String) (found : Found) (f : Files)
    → a ≡ false
    → of_files (send_file a id name found f).1.0 ≡ []
unfolding send_file of_files
send_file-acts a id name found f e = rw e refl

held :
    (ps : Outbound) (d : Daemon)
    → d.authenticated ≡ false
    → All IsGuarded ps
    → packets (send_all ps d).out ≡ packets d.out
held ps d a g = ap (λ (x : Daemon). packets x.out) (sends_nothing ps d a g)

-- As long as the daemon is not authenticated, no method that is called over D-Bus makes it send a
-- packet or hand one to a plugin, whoever calls it and with whatever arguments, and whatever state the
-- plugins are in.
pub method_call-packets :
    (bytes : String → ℕ) (lower : String → String) (service_uuid : String) (w : World)
    (objects : Option (List BondedDevice)) (sender : String) (m : Method) (k : Desk)
    → k.daemon.authenticated ≡ false
    → packets (method_call bytes lower service_uuid w objects sender m k).desk.daemon.out
      ≡ packets k.daemon.out
unfolding method_call
method_call-packets bytes lower uuid w objects sender ping k a =
    held (of_ring (Alert.ask_phone true)) k.daemon a (ring-IsGuarded true)
method_call-packets bytes lower uuid w objects sender stop_ringing k a =
    held (of_ring (Alert.ask_phone false)) k.daemon a (ring-IsGuarded false)
method_call-packets bytes lower uuid w objects sender send_clipboard k a =
    let ws = (Clipboard.send_current k.daemon.clipboard).0 in
    held (of_clipboard ws) k.daemon a (clipboard-IsGuarded ws)
method_call-packets bytes lower uuid w objects sender (set_clipboard content force) k a =
    let (ws, seen) = Clipboard.set_from_shell bytes content force k.daemon.clipboard in
    held (of_clipboard ws) (record k.daemon { clipboard = seen }) a (clipboard-IsGuarded ws)
method_call-packets bytes lower uuid w objects sender (sends_file id name found) k a =
    ap (λ ps. packets (send_all ps k.daemon).out)
      (send_file-acts k.daemon.authenticated id name found k.files a)
    ∙ held [] k.daemon a tt
method_call-packets bytes lower uuid w objects sender cancel_transfer k a =
    held (of_files (cancel k.files).1.0) k.daemon a (cancel-IsGuarded k.files)
method_call-packets bytes lower uuid w objects sender (media_command wanted) k a =
    held (of_media (Media.command wanted)) k.daemon a (media-IsGuarded (Media.command wanted))
method_call-packets bytes lower uuid w objects sender (send_reply key content) k a =
    let rs = Notification.reply key content k.daemon.notes in
    held (of_reply rs) k.daemon a (reply-IsGuarded rs)
method_call-packets bytes lower uuid w objects sender (set_clipboard_bridge active) k a = refl
method_call-packets bytes lower uuid w objects sender reconnect k a = refl
method_call-packets bytes lower uuid w objects sender forget k a = forget_quiet w k.daemon
method_call-packets bytes lower uuid w objects sender list_devices k a = refl
method_call-packets bytes lower uuid w objects sender (other name) k a = refl
