-- ===== src/Upgrade/Offers.antt =====
-- daemon/fedoralink/tcp.py: what happens to an offer, as a list of events.
use fedoralink.Prelude.{
  ◌≡◌, ◌⊎◌, inl, inr, refl, String, true, Option, none, some, List, [], ◌∷◌, is_some, arith, ◌∙◌,
  Bool-cases, Option-cases, ℕ, ltb, length, ◌++◌, is_empty,
}
use fedoralink.Json.{obj, str, Fields, end, field}
use fedoralink.Framing.{Bytes}
use fedoralink.Protocol.{JsonText, serialize}
use fedoralink.Auth.{Primitives, respond}
use fedoralink.Session.{Verdict, proceed, rejected, crashed, Result, ok, err, raised, derive_keys}
use fedoralink.Link.{Sent}
use fedoralink.Upgrade.{
  Tcp, Handshake, start, stop, on_incoming, admit, abandon, on_handshake_timeout,
  on_handshake_readable, handle_close, Received, hang_up, nothing_yet, bytes, complete_handshake,
  with_hello, judged, answer, with_keys, is_whole, at_newline, read_handshake,
}

-- One link at a time: a handshake only where no link is up.
pub record IsExclusive (t : Tcp) : Type 0 where
  pub one_slot : (t.link ≡ none) ⊎ (t.pending ≡ none)

-- No link, no handshake, and no offer outstanding.
pub record IsShut (t : Tcp) : Type 0 where
  pub no_link : t.link ≡ none
  pub no_handshake : t.pending ≡ none
  pub no_offer : t.nonce ≡ none

-- What happens to the transport besides a new offer.
pub data Event : Type 0 where
  listen : Option ℕ → Event
  stopped caller timeout closed : Event
  readable : Sent → Received → Event

module _ (prim : Primitives) (text : JsonText) (secret_for : String → Option String) where
  pub step : Event → Tcp → Tcp
  step (listen bound) t = (start bound t).1
  step stopped t = stop t
  step caller t = on_incoming t
  step timeout t = on_handshake_timeout t
  step closed t = handle_close t
  step (readable s r) t = on_handshake_readable prim text secret_for s r t

  pub run : List Event → Tcp → Tcp
  run [] t = t
  run (e ∷ es) t = run es (step e t)

  admit-IsExclusive :
      (n d : Option String) (t : Tcp) → t.link ≡ none → IsExclusive t → IsExclusive (admit n d t)
  admit-IsExclusive none d t l x = x
  admit-IsExclusive (some n) none t l x = x
  admit-IsExclusive (some n) (some d) t l x = record { one_slot = inl l }

  with_keys-IsExclusive :
      (k : Result (Bytes × Bytes)) (t : Tcp)
      → IsExclusive t
      → IsExclusive (with_keys prim text secret_for k t)
  unfolding abandon
  with_keys-IsExclusive (ok (a, b)) t x = record { one_slot = inr refl }
  with_keys-IsExclusive (err e) t x = record { one_slot = inr refl }
  with_keys-IsExclusive raised t x = x

  answer-IsExclusive :
      (s : Sent) (k n p : String) (m : Option String) (t : Tcp)
      → IsExclusive t
      → IsExclusive (answer prim text secret_for s k n p m t)
  unfolding abandon
  answer-IsExclusive s k n p none t x = record { one_slot = inr refl }
  answer-IsExclusive s k n p (some m) t x =
      elim (Bool-cases
        (is_whole prim text secret_for (serialize text (obj (field "mac" (str m) end))) s)) [
          | inl e ↦ rw e (with_keys-IsExclusive (derive_keys prim k n p) t x)
          | inr e ↦ rw e (record { one_slot = inr refl })
        ]

  judged-IsExclusive :
      (s : Sent) (k : Option String) (n : String) (v : Verdict) (t : Tcp)
      → IsExclusive t
      → IsExclusive (judged prim text secret_for s k n v t)
  unfolding abandon
  judged-IsExclusive s k n (rejected why) t x = record { one_slot = inr refl }
  judged-IsExclusive s k n crashed t x = x
  judged-IsExclusive s none n (proceed p) t x = x
  judged-IsExclusive s (some k) n (proceed p) t x =
      answer-IsExclusive s k n p (respond prim k p) t x

  with_hello-IsExclusive :
      (s : Sent) (h : Handshake) (o : Option Fields) (t : Tcp)
      → IsExclusive t
      → IsExclusive (with_hello prim text secret_for s h o t)
  unfolding abandon
  with_hello-IsExclusive s h none t x = record { one_slot = inr refl }
  with_hello-IsExclusive s h (some hello) t x = judged-IsExclusive s _ h.nonce _ t x

  at_newline-IsExclusive :
      (s : Sent) (h : Handshake) (o : Option ℕ) (t : Tcp)
      → t.link ≡ none
      → IsExclusive (at_newline prim text secret_for s h o t)
  unfolding complete_handshake
  at_newline-IsExclusive s h none t l = record { one_slot = inl l }
  at_newline-IsExclusive s h (some i) t l =
      with_hello-IsExclusive s h _ _ (record { one_slot = inl l })

  read_handshake-IsExclusive :
      (s : Sent) (r : Received) (o : Option Handshake) (t : Tcp)
      → t.pending ≡ o
      → IsExclusive t
      → IsExclusive (read_handshake prim text secret_for s r o t)
  unfolding abandon
  read_handshake-IsExclusive s r none t q x = x
  read_handshake-IsExclusive s hang_up (some h) t q x = elim (Bool-cases h.reading) [
    | inl e ↦ simp e (record { one_slot = inr refl })
    | inr e ↦ simp e x
  ]
  read_handshake-IsExclusive s nothing_yet (some h) t q x = x
  read_handshake-IsExclusive s (bytes chunk) (some h) t q x = elim (Bool-cases h.reading) [
    | inr e ↦ simp e x
    | inl e ↦ simp e (elim (Bool-cases (is_empty chunk)) [
      | inl w ↦ rw w (record { one_slot = inr refl })
      | inr w ↦ elim (Bool-cases (ltb 8192 (length (h.buffer ++ chunk)))) [
        | inl z ↦ rw (w, z) (record { one_slot = inr refl })
        | inr z ↦ rw (w, z) (at_newline-IsExclusive s _ _ t no_link)
      ]
    ])
  ]
    where
      no_link : t.link ≡ none
      no_link = elim x.one_slot [ inl l ↦ l | inr p ↦ ground arith ]

  incoming_taken :
      (t : Tcp)
      → is_some t.server ≡ true
      → t.link ≡ none
      → t.pending ≡ none
      → on_incoming t
        ≡ admit t.nonce t.expect_device (record t { nonce = none; expect_device = none })
  unfolding on_incoming
  incoming_taken t e l p = simp (e, l, p) refl

  start_keeps :
      (bound : Option ℕ) (t : Tcp)
      → ((start bound t).1.link ≡ t.link)
        × ((start bound t).1.pending ≡ t.pending)
        × ((start bound t).1.nonce ≡ t.nonce)
  unfolding start
  start_keeps bound t = ground arith

  incoming-IsExclusive : (t : Tcp) → IsExclusive t → IsExclusive (on_incoming t)
  unfolding on_incoming
  incoming-IsExclusive t x = elim (Bool-cases (is_some t.server)) [
    | inr e ↦ simp e x
    | inl e ↦ elim (Option-cases t.link) [
      | inr (c, l) ↦ simp (e, l) x
      | inl l ↦ elim (Option-cases t.pending) [
        | inr (h, p) ↦ simp (e, l, p) x
        | inl p ↦ rw (taken e l p) (
            admit-IsExclusive t.nonce t.expect_device
              (record t { nonce = none; expect_device = none }) l (record { one_slot = inl l }))
      ]
    ]
  ]
    where
      taken :
          is_some t.server ≡ true
          → t.link ≡ none
          → t.pending ≡ none
          → on_incoming t
            ≡ admit t.nonce t.expect_device (record t { nonce = none; expect_device = none })
      taken e l p = incoming_taken t e l p

  step-IsExclusive : (e : Event) (t : Tcp) → IsExclusive t → IsExclusive (step e t)
  unfolding step stop on_handshake_timeout handle_close on_handshake_readable abandon
  step-IsExclusive (listen bound) t x =
      let (l, p, n) = start_keeps bound t in
      record { one_slot = elim x.one_slot [ inl q ↦ inl (l ∙ q) | inr q ↦ inr (p ∙ q) ] }
  step-IsExclusive stopped t x = record { one_slot = inl refl }
  step-IsExclusive caller t x = incoming-IsExclusive t x
  step-IsExclusive timeout t x = record { one_slot = inr refl }
  step-IsExclusive closed t x = record { one_slot = inl refl }
  step-IsExclusive (readable s r) t x = read_handshake-IsExclusive s r t.pending t refl x

  -- Whatever happens to a transport that has not both a link and a handshake, they never stand
  -- side by side.
  pub run-IsExclusive : (es : List Event) (t : Tcp) → IsExclusive t → IsExclusive (run es t)
  unfolding run
  run-IsExclusive [] t x = x
  run-IsExclusive (e ∷ es) t x = run-IsExclusive es (step e t) (step-IsExclusive e t x)

  no_offer-IsShut :
      (n d : Option String) (t : Tcp)
      → n ≡ none
      → t.link ≡ none
      → t.pending ≡ none
      → IsShut (admit n d (record t { nonce = none; expect_device = none }))
  no_offer-IsShut none d t e l p = record { no_link = l; no_handshake = p; no_offer = refl }
  no_offer-IsShut (some n) d t e l p = ground arith

  step-IsShut : (e : Event) (t : Tcp) → IsShut t → IsShut (step e t)
  unfolding step stop on_handshake_timeout handle_close on_handshake_readable abandon on_incoming
  step-IsShut (listen bound) t x =
      let (l, p, n) = start_keeps bound t in
      record {
        no_link = l ∙ x.no_link;
        no_handshake = p ∙ x.no_handshake;
        no_offer = n ∙ x.no_offer;
      }
  step-IsShut stopped t x = record { no_link = refl; no_handshake = refl; no_offer = refl }
  step-IsShut caller t x = elim (Bool-cases (is_some t.server)) [
    | inl e ↦
        rw (incoming_taken t e x.no_link x.no_handshake)
          (no_offer-IsShut t.nonce t.expect_device t x.no_offer x.no_link x.no_handshake)
    | inr e ↦ simp e x
  ]
  step-IsShut timeout t x = record {
    no_link = x.no_link;
    no_handshake = refl;
    no_offer = x.no_offer;
  }
  step-IsShut closed t x = record {
    no_link = refl;
    no_handshake = x.no_handshake;
    no_offer = x.no_offer;
  }
  step-IsShut (readable s r) t x = simp x.no_handshake x

  run-IsShut : (es : List Event) (t : Tcp) → IsShut t → IsShut (run es t)
  unfolding run
  run-IsShut [] t x = x
  run-IsShut (e ∷ es) t x = run-IsShut es (step e t) (step-IsShut e t x)

  attempt-IsShut :
      (n d : Option String) (t : Tcp)
      → t.link ≡ none
      → t.pending ≡ none
      → t.nonce ≡ none
      → IsShut (on_handshake_timeout (admit n d t))
  unfolding on_handshake_timeout abandon
  attempt-IsShut none d t l p o = record { no_link = l; no_handshake = refl; no_offer = o }
  attempt-IsShut (some n) none t l p o = record { no_link = l; no_handshake = refl; no_offer = o }
  attempt-IsShut (some n) (some d) t l p o = record {
    no_link = l;
    no_handshake = refl;
    no_offer = o;
  }

  -- One offer, one attempt: where a caller took up the offer of a listening transport and let the
  -- handshake time out, no one gets a handshake or a link by whatever happens next, until there
  -- is a new offer.
  pub run_one_attempt :
      (es : List Event) (t : Tcp)
      → is_some t.server ≡ true
      → t.link ≡ none
      → t.pending ≡ none
      → IsShut (run (caller ∷ timeout ∷ es) t)
  unfolding run step
  run_one_attempt es t s l p = run-IsShut es (on_handshake_timeout (on_incoming t)) (
      rw (incoming_taken t s l p) (
        attempt-IsShut t.nonce t.expect_device (record t { nonce = none; expect_device = none }) l p
          refl))
