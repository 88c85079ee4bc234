-- ===== src/Files/Slots/Sending.antt =====
-- daemon/fedoralink/plugins/files.py: the sending handlers and `on_packet`, and the slots behind each.
use fedoralink.Prelude.{
  ℕ, ◌≡◌, inl, inr, refl, ◌∙◌, String, Bool, true, false, Option, none, some, ltb, str_eq, arith,
  Bool-cases, is_some,
}
use fedoralink.Json.{Fields}
use fedoralink.Framing.{Bytes}
use fedoralink.Transfers.{Result, ok, err}
use fedoralink.Transfers.Incoming.{Hashing}
use fedoralink.Transfers.Outgoing.{Outgoing, open_outgoing, next_chunk}
use fedoralink.Files.{Files, after_drain, show_progress}
use fedoralink.Files.Pump.{
  Machine, Found, no_file, unreadable, file, opened, send_found, send_file, pumped, pump_from, pump,
  on_packet,
}
use fedoralink.Files.Slots.{
  IsSound, progress-IsSound, outgoing-IsSound, no_outgoing-IsSound, pumping-IsSound, quiet-IsSound,
}
use fedoralink.Files.Slots.Handlers.{
  on_offer-IsSound, on_chunk-IsSound, on_done-IsSound, on_accept-IsSound, on_remote_cancel-IsSound,
}

opened_reads :
    (id : String) (content : Bytes) (t : Outgoing)
    → open_outgoing id content ≡ ok t
    → t.closed ≡ false
unfolding open_outgoing
opened_reads id content t e = ground arith

pub send_file-IsSound :
    (a : Bool) (id name : String) (found : Found) (f : Files)
    → IsSound f
    → IsSound (send_file a id name found f).1.1
unfolding send_file
send_file-IsSound false id name found f s = s
send_file-IsSound true id name found f s = elim (Bool-cases (is_some f.outgoing)) [
  | inl b ↦ rw b s
  | inr b ↦ rw b (sent found)
]
  where
    fresh :
        (content : Bytes) (r : Result Outgoing)
        → open_outgoing id content ≡ r
        → IsSound (opened name r f).1.1
    fresh content (err e) q = s
    fresh content (ok t) q = outgoing-IsSound t f (opened_reads id content t q) s

    sent : (x : Found) → IsSound (send_found id name x f).1.1
    sent no_file = s
    sent unreadable = s
    sent (file content) = fresh content (open_outgoing id content) refl

next_chunk-closed : (t : Outgoing) → (next_chunk t).1.closed ≡ t.closed
unfolding next_chunk
next_chunk-closed t = ground arith

pub pump-IsSound :
    (h : Hashing) (b64encode : Bytes → String) (shown : Option ℕ → Option ℕ) (pending_bytes : ℕ)
    (f : Files)
    → IsSound f
    → IsSound (pump h b64encode shown pending_bytes f).1
unfolding pump show_progress
pump-IsSound h b64encode shown pending_bytes f s = go f.outgoing refl
  where
    over :
        (x : Option (ℕ × Bytes) × Outgoing)
        → x.1.closed ≡ false
        → IsSound (pumped h b64encode shown x f).1
    over (none, t) c = no_outgoing-IsSound f s
    over (some (seq, bytes), t) c =
        progress-IsSound _ (record f { outgoing = some t }) (outgoing-IsSound t f c s)

    go :
        (o : Option Outgoing)
        → f.outgoing ≡ o
        → IsSound (pump_from h b64encode shown pending_bytes o f).1
    go none e = quiet-IsSound f s
    go (some t) e = elim (Bool-cases (ltb 98304 pending_bytes)) [
      | inl b ↦ rw b (pumping-IsSound (some after_drain) t f e s)
      | inr b ↦ rw b (over (next_chunk t) (next_chunk-closed t ∙ s.outgoing_open t e))
    ]

pub on_packet-IsSound :
    (m : Machine) (t : String) (body : Fields) (f : Files)
    → IsSound f
    → IsSound (on_packet m t body f).1
unfolding on_packet
on_packet-IsSound m t body f s = elim (Bool-cases (str_eq t "fedoralink.file.offer")) [
  | inl a ↦ rw a (on_offer-IsSound m.posted body f s)
  | inr a ↦ elim (Bool-cases (str_eq t "fedoralink.file.chunk")) [
    | inl b ↦ rw (a, b) (on_chunk-IsSound m.shown m.b64decode m.writes body f s)
    | inr b ↦ elim (Bool-cases (str_eq t "fedoralink.file.done")) [
      | inl c ↦ rw (a, b, c) (on_done-IsSound m.hashing m.saving body f s)
      | inr c ↦ elim (Bool-cases (str_eq t "fedoralink.file.cancel")) [
        | inl d ↦ rw (a, b, c, d) (on_remote_cancel-IsSound body f s)
        | inr d ↦ elim (Bool-cases (str_eq t "fedoralink.file.accept")) [
          | inl e ↦ rw (a, b, c, d, e) (on_accept-IsSound m.shown body f s)
          | inr e ↦ rw (a, b, c, d, e) s
        ]
      ]
    ]
  ]
]
