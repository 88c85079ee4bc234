-- ===== src/Link/Opening.antt =====
-- daemon/fedoralink/session.py: `seal` on one side and `open` on the other.
use fedoralink.Prelude.{
  ℕ, ◌+◌, ◌^◌, ◌<◌, ◌≡◌, ◌≢◌, refl, ap, ◌∙◌, sym, none, some, length, arith, lt→ltb, Option-cases,
  inl, inr,
}
use fedoralink.Framing.{Bytes}
use fedoralink.BigEndian.{to_bytes, from_bytes, digits_be, from_bytes-digits_be}
use fedoralink.Session.{
  Aead, RecordCrypto, ok, err, failed_authentication, seal, open_record, nonce_of, pack_u32,
}
use fedoralink.Session.Records.{frame_record}

-- AES-GCM as the package documents it: what is sealed under a key and a nonce is opened under
-- both, and carries a tag of 16 bytes.
pub record IsAead (aead : Aead) : Type 0 where
  pub opens :
      (key nonce plain : Bytes) → aead.decrypt key nonce (aead.encrypt key nonce plain) ≡ some plain
  pub tagged : (key nonce plain : Bytes) → length (aead.encrypt key nonce plain) ≡ length plain + 16

-- And it is authentic: what opens under one nonce opens under no other.
pub record IsBound (aead : Aead) : Type 0 where
  pub one_nonce :
      (key m n sealed plain : Bytes)
      → aead.decrypt key m sealed ≡ some plain
      → n ≢ m
      → aead.decrypt key n sealed ≡ none

abbrev pub counter_limit : ℕ
counter_limit = 256 ^ 12

to_bytes_fits : (w n : ℕ) → n < 256 ^ w → to_bytes w n ≡ some (digits_be w n)
unfolding to_bytes
to_bytes_fits w n h = rw (lt→ltb n (256 ^ w) h) refl

pub nonce_of_fits : (n : ℕ) → n < counter_limit → nonce_of n ≡ some (digits_be 12 n)
unfolding nonce_of
nonce_of_fits n h = to_bytes_fits 12 n h

module _ (aead : Aead) (c : RecordCrypto) where
  -- Below the counter's limit `seal` frames the ciphertext under the counter as the nonce, and
  -- moves on to the next counter.
  pub seal_lem :
      (plain : Bytes)
      → c.send_counter < counter_limit
      → length (aead.encrypt c.send_key (digits_be 12 c.send_counter) plain) < 256 ^ 4
      → seal aead c plain ≡ (
        some (frame_record (aead.encrypt c.send_key (digits_be 12 c.send_counter) plain)),
        record c { send_counter = c.send_counter + 1 },
      )
  unfolding seal pack_u32
  seal_lem plain h k = rw (nonce_of_fits c.send_counter h) (rw (to_bytes_fits 4 _ k) refl)

  pub open_record_lem :
      (plain : Bytes)
      → IsAead aead
      → c.recv_counter < counter_limit
      → open_record aead c (aead.encrypt c.recv_key (digits_be 12 c.recv_counter) plain)
        ≡ (ok plain, record c { recv_counter = c.recv_counter + 1 })
  unfolding open_record
  open_record_lem plain law h = rw (nonce_of_fits c.recv_counter h, law.opens) refl

  digits_ne :
      (m n : ℕ) → m < counter_limit → n < counter_limit → m ≢ n → digits_be 12 m ≢ digits_be 12 n
  digits_ne m n h k ne e =
      ne (sym (from_bytes-digits_be 12 m h) ∙ ap from_bytes e ∙ from_bytes-digits_be 12 n k)

  open_record_opened :
      (sealed plain : Bytes) (d : RecordCrypto)
      → c.recv_counter < counter_limit
      → open_record aead c sealed ≡ (ok plain, d)
      → (aead.decrypt c.recv_key (digits_be 12 c.recv_counter) sealed ≡ some plain)
        × (d ≡ record c { recv_counter = c.recv_counter + 1 })
  unfolding open_record
  open_record_opened sealed plain d h e =
      let e' = rw (nonce_of_fits c.recv_counter h) at e in
      elim (Option-cases (aead.decrypt c.recv_key (digits_be 12 c.recv_counter) sealed)) [
        | inl p ↦ absurd (ground arith)
        | inr (q, p) ↦ ground arith
      ]

  -- A record that has been opened is refused when it is played back, at whatever later counter,
  -- and the refusal leaves the counter where it was.
  pub open_record_replay :
      (sealed plain : Bytes) (d : RecordCrypto) (later : ℕ)
      → IsBound aead
      → open_record aead c sealed ≡ (ok plain, d)
      → c.recv_counter < later
      → later < counter_limit
      → open_record aead (record d { recv_counter = later }) sealed
        ≡ (err failed_authentication, record d { recv_counter = later })
  unfolding open_record
  open_record_replay sealed plain d later bound e lt h =
      let (p, q) = open_record_opened sealed plain d (omega arith) e in
      rw q (
        rw
          (
            nonce_of_fits later h,
            bound.one_nonce c.recv_key (digits_be 12 c.recv_counter) (digits_be 12 later) sealed
                plain p (digits_ne later c.recv_counter h (omega arith) (omega arith)),
          )
          refl)
