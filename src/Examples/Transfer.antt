-- ===== src/Examples/Transfer.antt =====
-- Files on their way between two plugins.
use Prim.Native.Char.{code}
use fedoralink.Prelude.{
  ℕ, zero, suc, ◌+◌, ◌≡◌, refl, ap, ◌∙◌, String, true, false, Option, none, some, List, [], ◌∷◌,
  ◌==◌, arith, if◌then◌else◌,
}
use fedoralink.Json.{str, int, end, field}
use fedoralink.Framing.{Bytes}
use fedoralink.Transfers.Incoming.{Hashing, moves, open_incoming}
use fedoralink.Transfers.Outgoing.{Outgoing, open_outgoing}
use fedoralink.Files.{Files, Receiving, idle_files, when_idle}
use fedoralink.Files.Pump.{Machine, file}
use fedoralink.Files.Slots.{IsSound}
use fedoralink.Files.Slots.Events.{Event, arrived, chose, sending, step, run, run-IsSound}
use fedoralink.Files.Outcome.Events.{run-Fate, ends}
use fedoralink.Files.Outcome.{Fate}
use fedoralink.Files.Whole.Through.{exchange-IsThrough}
use fedoralink.Files.Whole.{exchange, good_disk, IsThrough}

abbrev hashing : Hashing
hashing = record { hexdigest = λ bytes. "aa"; lower = λ s. s }

-- a code for bytes: for each, as many a as it says, and a b
abbrev ones : ℕ → String → String
ones zero s = String.◌∷◌ "b" s
ones (suc n) s = String.◌∷◌ "a" (ones n s)

abbrev encode : Bytes → String
encode [] = ""
encode (n ∷ ns) = ones n (encode ns)

abbrev and_then : ℕ → Option Bytes → Option Bytes
and_then n none = none
and_then n (some ns) = some (n ∷ ns)

-- the bytes, behind so many a
abbrev decode_from : ℕ → String → Option Bytes
decode_from n String.[] = some []
decode_from n (String.◌∷◌ c s) =
    let further = decode_from (suc n) s in
    let next = decode_from 0 s in if code c == 97 then further else and_then n next

shift : (n m : ℕ) → suc m + n ≡ m + suc n
shift n m = omega arith

decode-ones : (n m : ℕ) (s : String) → decode_from m (ones n s) ≡ and_then (m + n) (decode_from 0 s)
decode-ones zero m s = ap (λ x. and_then x (decode_from 0 s)) (omega arith)
decode-ones (suc n) m s =
    decode-ones n (suc m) s ∙ ap (λ x. and_then x (decode_from 0 s)) (shift n m)

decode-encode : (bytes : Bytes) → decode_from 0 (encode bytes) ≡ some bytes
decode-encode [] = refl
decode-encode (n ∷ ns) =
    decode-ones n 0 (encode ns)
    ∙ ap (and_then (0 + n)) (decode-encode ns)
    ∙ ap (λ x. some (x ∷ ns)) (omega arith)

abbrev two_bytes : Outgoing
two_bytes = record {
  id = "t";
  size = 2;
  sent = 0;
  next_seq = 0;
  hashed = [];
  unread = 8 ∷ 9 ∷ [];
  closed = false;
}

abbrev sender : Files
sender = record idle_files { outgoing = some two_bytes; pump_source = some when_idle }

abbrev receiver : Files
receiver = record idle_files {
  incoming = some (record { path = b'f' ∷ []; transfer = open_incoming "t" 2 none });
}

abbrev same_id : Option ℕ → Option ℕ
same_id o = o

exchange-IsThrough_example : IsThrough (b'f' ∷ []) (8 ∷ 9 ∷ []) (
    exchange hashing encode same_id
      (good_disk hashing encode (decode_from 0) same_id same_id (some 7))
      3
      sender
      receiver)
unfolding open_outgoing
exchange-IsThrough_example =
    exchange-IsThrough hashing encode (decode_from 0) same_id same_id (some 7) 3 "t" two_bytes
      (b'f' ∷ []) (8 ∷ 9 ∷ []) sender receiver decode-encode refl refl (omega arith) refl refl refl

abbrev machine : Machine
machine = record {
  posted = some 7;
  shown = same_id;
  b64decode = λ s. some (8 ∷ []);
  hashing = hashing;
  writes = true;
  saving = moves;
}

-- a file of one byte is offered, accepted, sent and done, and another one goes out
abbrev busy : List Event
busy =
    arrived machine "fedoralink.file.offer"
      (field "id" (str "t") (field "name" (str "f") (field "size" (int 1) end)))
    ∷ chose same_id (some (b'f' ∷ [])) (some "fedoralink-accept-file")
    ∷ sending true "u" "g" (file (5 ∷ 6 ∷ []))
    ∷ arrived machine "fedoralink.file.chunk"
        (field "id" (str "t") (field "seq" (int 0) (field "data" (str "CA==") end)))
    ∷ []

abbrev finished : Event
finished =
    arrived machine "fedoralink.file.done" (field "id" (str "t") (field "sha256" (str "aa") end))

run-IsSound_example : IsSound (run busy idle_files)
run-IsSound_example = run-IsSound busy

-- the one byte that has come in
abbrev coming_in : Receiving
coming_in = record {
  path = b'f' ∷ [];
  transfer = record (open_incoming "t" 1 none) {
    received = 1;
    next_seq = 1;
    content = 8 ∷ [];
    temp = some (8 ∷ []);
  };
}

run-Fate_example :
    Fate coming_in (step finished (run busy idle_files))
    × (ends finished ≡ true → (step finished (run busy idle_files)).1.incoming ≡ none)
unfolding run step fedoralink.Files.Pump.on_packet fedoralink.Files.Pump.send_file
    fedoralink.Files.offer_answered fedoralink.Transfers.validate_offer fedoralink.Json.as_text
    fedoralink.Json.get open_outgoing open_incoming fedoralink.Json.truthy
    fedoralink.Transfers.Incoming.write_chunk
run-Fate_example = run-Fate busy finished coming_in refl refl
