-- ===== src/Files/Whole.antt =====
-- Two ends of a transfer: the pump of one plugin, and `on_packet` of the other.
pub mod Through
use fedoralink.Prelude.{
  ℕ, zero, suc, ◌+◌, ◌<◌, ◌≡◌, refl, sym, ◌∙◌, ap, String, true, false, Option, none, some, List,
  [], ◌∷◌, ◌++◌, length, str_eq, arith, Bool-cases, inl, inr, take, is_empty, length-drop, eq_refl,
  eq_iff,
}
use fedoralink.Json.{str, int, Fields, end, field, get, truthy, as_str, as_text}
use fedoralink.Framing.{Bytes}
use fedoralink.Transfers.{Text, chunk_bytes, ok}
use fedoralink.Transfers.Incoming.{
  Hashing, moves, Incoming, open_incoming, write_chunk, done, finish, hash_ok,
}
use fedoralink.Transfers.Outgoing.{Outgoing, open_outgoing, advance, sha256}
use fedoralink.Transfers.Whole.{
  InStep, next_chunk_end, next_chunk_more, write_chunk_next, some_taken, written, chunk_fits,
  advance-InStep, all_written, opened_is, hash_matches, finish_saves,
}
use fedoralink.Files.{
  Files, Source, when_idle, Step, Act, packet, tell, progress, take_back, released, escaped, is_for,
  show_progress, chunk_data, on_chunk, on_done,
}
use fedoralink.Files.Pump.{Machine, done_packet, pump, on_packet}

-- the packets that one end sends, taken by the other in their order
unfoldable pub deliver : Machine → List Act → Files → Step
deliver m [] f = ([], f)
deliver m (packet t body ∷ acts) f =
    let (out, f') = on_packet m t body f in
    let (more, f'') = deliver m acts f' in (out ++ more, f'')
deliver m (tell _ ∷ acts) f = deliver m acts f
deliver m (progress _ _ ∷ acts) f = deliver m acts f
deliver m (take_back _ ∷ acts) f = deliver m acts f
deliver m (released _ _ ∷ acts) f = deliver m acts f
deliver m (escaped ∷ acts) f = deliver m acts f

module _ (h : Hashing) (b64encode : Bytes → String) (shown : Option ℕ → Option ℕ)
    (m : Machine) where
  abbrev pub turn :
      (Files → Files → List Act × (Files × Files))
      → Option Source
      → Files
      → Files
      → List Act × (Files × Files)
  turn more none s r = ([], (s, r))
  turn more (some _) s r =
      let (acts, s') = pump h b64encode shown 0 s in
      let (out, r') = deliver m acts r in let (out', ends) = more s' r' in (out ++ out', ends)

  -- the turns of the pump, on fuel, while the socket drains, each with the packets it sends
  -- delivered: what the receiver does, and the two plugins afterwards
  unfoldable pub exchange : ℕ → Files → Files → List Act × (Files × Files)
  exchange zero s r = ([], (s, r))
  exchange (suc fuel) s r = turn (exchange fuel) s.pump_source s r

-- a transfer that leaves its slot with this content in place
pub data Saves (path : Text) (content : Bytes) : List Act → Type 0 where
  saves_here :
      (t : Incoming) (acts : List Act)
      → t.target ≡ some content
      → Saves path content (released path t ∷ acts)
  saves_later :
      (a : Act) (acts : List Act) → Saves path content acts → Saves path content (a ∷ acts)

pub record IsThrough (path : Text) (content : Bytes) (x : List Act × (Files × Files)) : Type 0 where
  pub sender_free : x.1.0.outgoing ≡ none
  pub pump_gone : x.1.0.pump_source ≡ none
  pub receiver_free : x.1.1.incoming ≡ none
  pub saved : Saves path content x.0

abbrev pub with_transfer : Text → Incoming → Option ℕ → Files → Files
with_transfer path t id f = record f {
  incoming = some (record { path = path; transfer = t });
  progress_id = id;
}

module _ (h : Hashing) (b64encode : Bytes → String) (b64decode : String → Option Bytes)
    (shown taken : Option ℕ → Option ℕ) (posted : Option ℕ) where
  -- a receiver whose disk takes what is written and renames what is done
  abbrev pub good_disk : Machine
  good_disk = record {
    posted = posted;
    shown = taken;
    b64decode = b64decode;
    hashing = h;
    writes = true;
    saving = moves;
  }

  data_back :
      (bytes : Bytes)
      → b64decode (b64encode bytes) ≡ some bytes
      → chunk_data b64decode (str (b64encode bytes)) ≡ some bytes
  unfolding chunk_data truthy as_str
  data_back bytes back = elim (Bool-cases (str_eq (b64encode bytes) "")) [
    | inl e ↦ rw e (ap b64decode (sym ((eq_iff (b64encode bytes) "").0 e)) ∙ back)
    | inr e ↦ rw e back
  ]

  abbrev chunk_body : String → ℕ → Bytes → Fields
  chunk_body id seq bytes =
      field "id" (str id) (field "seq" (int seq) (field "data" (str (b64encode bytes)) end))

  chunk_taken :
      (bytes : Bytes) (seq : ℕ) (path : Text) (t : Incoming) (f : Files)
      → b64decode (b64encode bytes) ≡ some bytes
      → f.incoming ≡ some (record { path = path; transfer = t })
      → write_chunk (int seq) bytes t ≡ (done tt, written bytes t)
      → on_chunk taken b64decode true (chunk_body t.id seq bytes) f ≡ (
        progress (t.received + length bytes) t.size ∷ [],
        with_transfer path (written bytes t) (taken f.progress_id) f,
      )
  unfolding on_chunk is_for show_progress get as_str
  chunk_taken bytes seq path t f back slot put =
      rw (slot, eq_refl t.id, data_back bytes back, put) refl

  done_taken :
      (hash : String) (path : Text) (t t' : Incoming) (f : Files)
      → f.incoming ≡ some (record { path = path; transfer = t })
      → finish h moves (str hash) t ≡ (done tt, t')
      → on_done h moves (field "id" (str t.id) (field "sha256" (str hash) end)) f
        ≡ (released path t' ∷ tell "File received" ∷ [], record f { incoming = none })
  unfolding on_done is_for get as_str
  done_taken hash path t t' f slot put = rw (slot, eq_refl t.id, put) refl

  -- one turn while there is something to read
  pub pump_more :
      (o : Outgoing) (f : Files)
      → f.outgoing ≡ some o
      → o.closed ≡ false
      → is_empty (take chunk_bytes o.unread) ≡ false
      → let bytes = take chunk_bytes o.unread in
        pump h b64encode shown 0 f ≡ (
          packet "fedoralink.file.chunk" (chunk_body o.id o.next_seq bytes)
              ∷ progress (o.sent + length bytes) o.size
              ∷ [],
          record f { outgoing = some (advance o bytes); progress_id = shown f.progress_id },
        )
  unfolding pump show_progress
  pump_more o f slot reading more = rw (slot, next_chunk_more o reading more) refl

  -- the turn at the end of the file
  pub pump_end :
      (o : Outgoing) (f : Files)
      → f.outgoing ≡ some o
      → o.closed ≡ false
      → is_empty (take chunk_bytes o.unread) ≡ true
      → pump h b64encode shown 0 f ≡ (
        done_packet h b64encode shown o ∷ tell "File sent" ∷ [],
        record f { pump_source = none; outgoing = none },
      )
  unfolding pump
  pump_end o f slot reading over = rw (slot, next_chunk_end o reading over) refl

  pub stopped :
      (fuel : ℕ) (s r : Files)
      → s.pump_source ≡ none
      → exchange h b64encode shown good_disk fuel s r ≡ ([], (s, r))
  unfolding exchange
  stopped zero s r e = refl
  stopped (suc fuel) s r e = rw e refl

  abbrev after : List Act → List Act × (Files × Files) → List Act × (Files × Files)
  after out x = (out ++ x.0, x.1)

  pub one_turn :
      (fuel : ℕ) (p : Source) (s s' r r' : Files) (acts out : List Act)
      → s.pump_source ≡ some p
      → pump h b64encode shown 0 s ≡ (acts, s')
      → deliver good_disk acts r ≡ (out, r')
      → exchange h b64encode shown good_disk (suc fuel) s r
        ≡ after out (exchange h b64encode shown good_disk fuel s' r')
  unfolding exchange
  one_turn fuel p s s' r r' acts out on sent got =
      ap (λ x. turn h b64encode shown good_disk (exchange h b64encode shown good_disk fuel) x s r)
        on
      ∙ rw (sent, got) refl

  pub chunk_delivered :
      (bytes : Bytes) (id : String) (seq a b : ℕ) (path : Text) (t : Incoming) (r : Files)
      → b64decode (b64encode bytes) ≡ some bytes
      → id ≡ t.id
      → r.incoming ≡ some (record { path = path; transfer = t })
      → write_chunk (int seq) bytes t ≡ (done tt, written bytes t)
      → deliver good_disk
          (packet "fedoralink.file.chunk" (chunk_body id seq bytes) ∷ progress a b ∷ [])
          r
        ≡ (
          progress (t.received + length bytes) t.size ∷ [],
          with_transfer path (written bytes t) (taken r.progress_id) r,
        )
  unfolding deliver on_packet
  chunk_delivered bytes id seq a b path t r back same slot put =
      ap (λ (x : Step). (x.0 ++ [], x.1))
        (ap (λ x. on_chunk taken b64decode true (chunk_body x seq bytes) r) same
          ∙ chunk_taken bytes seq path t r back slot put)

  pub done_delivered :
      (o : Outgoing) (text : String) (path : Text) (t t' : Incoming) (r : Files)
      → o.id ≡ t.id
      → r.incoming ≡ some (record { path = path; transfer = t })
      → finish h moves (str (h.hexdigest o.hashed)) t ≡ (done tt, t')
      → deliver good_disk (done_packet h b64encode shown o ∷ tell text ∷ []) r
        ≡ (released path t' ∷ tell "File received" ∷ [], record r { incoming = none })
  unfolding deliver on_packet sha256
  done_delivered o text path t t' r same slot put =
      ap (λ (x : Step). (x.0 ++ [], x.1))
        (ap
            (λ x.
              on_done h moves (field "id" (str x) (field "sha256" (str (h.hexdigest o.hashed)) end))
                r)
            same
          ∙ done_taken (h.hexdigest o.hashed) path t t' r slot put)
