-- ===== src/Link/Outbox.antt =====
-- daemon/fedoralink/tcp.py and transport.py: what is written, what is queued, and when the socket is watched.
use fedoralink.Prelude.{
  ◌≡◌, refl, ◌∙◌, ap, sym, false, not, List, [], ◌∷◌, ◌++◌, take, drop, take-append-drop, is_empty,
  append_assoc_lem, arith, Bool-cases, inl, inr,
}
use fedoralink.Json.{Json}
use fedoralink.Protocol.{JsonText, serialize}
use fedoralink.Link.{Connection, Sent, took, blocked, failed, flush, send_plain}

-- Whatever the socket answers, what it has taken and what is still queued make up the same bytes.
pub written-flush :
    (answers : List Sent) (c : Connection)
    → (flush answers c).written ++ (flush answers c).outbox ≡ c.written ++ c.outbox
unfolding flush
written-flush [] c = ground arith
written-flush (blocked ∷ answers) c = ground arith
written-flush (failed ∷ answers) c = ground arith
written-flush (took n ∷ answers) c = elim (Bool-cases (is_empty c.outbox)) [
  | inl e ↦ rw e refl
  | inr more ↦ rw more (
      written-flush answers _
      ∙ append_assoc_lem c.written (take n c.outbox) (drop n c.outbox)
      ∙ ap (λ x. c.written ++ x) (take-append-drop n c.outbox))
]

-- After a flush that leaves the connection open, it watches for the socket to become writable
-- exactly while bytes are queued.
pub watching-flush :
    (answers : List Sent) (c : Connection)
    → (flush answers c).closed ≡ false
    → (flush answers c).watching ≡ not (is_empty (flush answers c).outbox)
unfolding flush
watching-flush [] c h = ground arith
watching-flush (blocked ∷ answers) c h = ground arith
watching-flush (failed ∷ answers) c h = ground arith
watching-flush (took n ∷ answers) c h = elim (Bool-cases (is_empty c.outbox)) [
  | inl e ↦ rw e (rw e refl)
  | inr more ↦ rw more (watching-flush answers _ (rw more at h))
]

-- Packets that are sent over Bluetooth reach the socket as their serialised lines in the order of
-- the calls, whatever the socket answered, as far as they have been written.
pub written-send_plain :
    (text : JsonText) (answers : List Sent) (packet : Json) (c : Connection)
    → c.closed ≡ false
    → (send_plain text answers packet c).written ++ (send_plain text answers packet c).outbox
      ≡ (c.written ++ c.outbox) ++ serialize text packet
unfolding send_plain
written-send_plain text answers packet c h =
    rw h
      (written-flush answers _ ∙ sym (append_assoc_lem c.written c.outbox (serialize text packet)))
