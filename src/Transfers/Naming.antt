-- ===== src/Transfers/Naming.antt =====
-- daemon/fedoralink/transfers.py: `safe_name` and `unique_path` of names that the peer chose.
pub mod Dots
use mathlib.Core.List.{map}
use mathlib.Core.Path.{subst}
use native.Mathlib.Nat.{add-zero}
use fedoralink.Prelude.{
  ℕ, zero, suc, ◌+◌, ◌≤◌, ◌<◌, ◌≡◌, refl, ap, String, Bool, true, false, Option, none, some, [],
  ◌∷◌, length, length-take, take, le_of_ltb, every, every-take, ltb, ◌==◌, arith, Bool-cases,
  Option-cases, inl, inr, is_empty,
}
use fedoralink.Json.{Json, str, Fields, get, as_str, as_text}
use fedoralink.Auth.{codes}
use fedoralink.Transfers.{
  Text, is_allowed, clean, lstrip, rstrip, base_of, safe_text, safe_name, fallback_name, Offer, ok,
  err, validate_offer, max_file_bytes, first_free, unique_path, tries, TransferError, last_part,
  as_size, to_slash, or_fallback, found, offer_with,
}

-- A single component of a path: at least one character, at most 200, and each of them a letter, a
-- digit, a dot, an underscore or a dash (so no separator among them). It may be hidden, and `.` and
-- `..` are among them.
pub record IsPlain (name : Text) : Type 0 where
  pub allowed : every is_allowed name ≡ true
  pub bounded : length name ≤ 200
  pub some_char : is_empty name ≡ false

clean_allowed : (c : ℕ) → is_allowed (clean c) ≡ true
clean_allowed c = elim (Bool-cases (is_allowed c)) [
  | inl e ↦ rw e e
  | inr e ↦ rw e (unfold is_allowed in refl)
]

map-clean_allowed : (name : Text) → every is_allowed (map clean name) ≡ true
map-clean_allowed [] = refl
map-clean_allowed (c ∷ cs) = rw (clean_allowed c) (map-clean_allowed cs)

module _ (p : ℕ → Bool) (b : ℕ) where
  every-lstrip : (name : Text) → every p name ≡ true → every p (lstrip b name) ≡ true
  unfolding lstrip
  every-lstrip [] h = refl
  every-lstrip (c ∷ cs) h = ground (arith, every-lstrip cs)

  every-rstrip : (name : Text) → every p name ≡ true → every p (rstrip b name) ≡ true
  unfolding rstrip
  every-rstrip [] h = refl
  every-rstrip (c ∷ cs) h = ground (arith, every-rstrip cs)

length-lstrip : (b : ℕ) (name : Text) → length (lstrip b name) ≤ length name
unfolding lstrip
length-lstrip b [] = omega arith
length-lstrip b (c ∷ cs) = ground (arith, length-lstrip b cs)

length-rstrip : (b : ℕ) (name : Text) → length (rstrip b name) ≤ length name
unfolding rstrip
length-rstrip b [] = omega arith
length-rstrip b (c ∷ cs) = ground (arith, length-rstrip b cs)

fallback-IsPlain : IsPlain fallback_name
fallback-IsPlain = record {
  allowed = unfold is_allowed in refl;
  bounded = omega arith;
  some_char = refl;
}

or_fallback-IsPlain :
    (name : Text) → every is_allowed name ≡ true → length name ≤ 200 → IsPlain (or_fallback name)
or_fallback-IsPlain [] a b = fallback-IsPlain
or_fallback-IsPlain (c ∷ cs) a b = record { allowed = a; bounded = b; some_char = refl }

base_allowed : (name : Text) → every is_allowed (base_of name) ≡ true
unfolding base_of
base_allowed name =
    every-lstrip is_allowed b'.' (map clean (last_part (map to_slash name) (map to_slash name)))
      (map-clean_allowed (last_part (map to_slash name) (map to_slash name)))

stripped-IsPlain :
    (base : Text)
    → every is_allowed base ≡ true
    → IsPlain (or_fallback (rstrip b'_' (lstrip b'_' (take 200 base))))
stripped-IsPlain base h =
    let cut = take 200 base in
    or_fallback-IsPlain (rstrip b'_' (lstrip b'_' cut))
      (every-rstrip is_allowed b'_' (lstrip b'_' cut)
        (every-lstrip is_allowed b'_' cut (every-take is_allowed 200 base h)))
      (omega
        (arith, length-rstrip b'_' (lstrip b'_' cut), length-lstrip b'_' cut, length-take 200 base))

safe_text-IsPlain : (name : Text) → IsPlain (safe_text name)
unfolding safe_text
safe_text-IsPlain name = stripped-IsPlain (base_of name) (base_allowed name)

-- Whatever value the peer sends as a name, the name that is used is plain.
pub safe_name-IsPlain : (name : Json) → IsPlain (safe_name name)
unfolding safe_name
safe_name-IsPlain name = elim (Option-cases (as_str name)) [
  | inl p ↦ rw p fallback-IsPlain
  | inr (s, p) ↦ rw p (safe_text-IsPlain (codes s))
]

last_part_plain : (part cs : Text) → every is_allowed cs ≡ true → last_part part cs ≡ part
unfolding last_part is_allowed
last_part_plain part [] h = refl
last_part_plain part (c ∷ cs) h =
    let ne : (c == b'/') ≡ false = ground arith in rw ne (last_part_plain part cs (ground arith))

map_plain : (cs : Text) → every is_allowed cs ≡ true → (map to_slash cs ≡ cs) × (map clean cs ≡ cs)
unfolding is_allowed
map_plain [] h = (refl, refl)
map_plain (c ∷ cs) h =
    let (a, b) = map_plain cs (ground arith) in (rw a (ground arith), rw b (ground arith))

base_of_plain : (name : Text) → every is_allowed name ≡ true → base_of name ≡ lstrip b'.' name
unfolding base_of
base_of_plain name h = let (a, b) = map_plain name h in rw (a, last_part_plain name name h, b) refl

strip_hidden :
    (rest : Text) → rstrip b'_' (lstrip b'_' (b'_' ∷ b'.' ∷ rest)) ≡ b'.' ∷ rstrip b'_' rest
unfolding lstrip rstrip
strip_hidden rest = ground arith

-- Leading dots are taken off before leading underscores are. So of a name that begins with an
-- underscore and a dot, all else in it being allowed, the dot stays in front: the file is hidden.
pub safe_name_hidden :
    (s : String) (rest : Text)
    → codes s ≡ b'_' ∷ b'.' ∷ rest
    → every is_allowed rest ≡ true
    → safe_name (str s) ≡ b'.' ∷ rstrip b'_' (take 198 rest)
unfolding safe_name safe_text as_str
safe_name_hidden s rest e h =
    let all : every is_allowed (b'_' ∷ b'.' ∷ rest) ≡ true = unfold is_allowed in h in
    rw (e, base_of_plain (b'_' ∷ b'.' ∷ rest) all)
      (unfold lstrip in ap or_fallback (strip_hidden (take 198 rest)))

ok-injective : {a b : Offer} → ok a ≡ ok b → a ≡ b
ok-injective e = cc

-- An offer that is accepted has an id, a plain name, and a size within the limit, which is the
-- integer that the peer declared.
pub validate_offer-ok :
    (body : Fields) (o : Offer)
    → validate_offer body ≡ ok o
    → (as_text (get "id" body) ≡ some o.id)
      × (as_size (get "size" body) ≡ some o.size)
      × (o.size ≤ max_file_bytes)
      × IsPlain o.name
unfolding validate_offer
validate_offer-ok body o h = go (as_text (get "id" body)) (as_size (get "size" body)) h
  where
    go :
        (id : Option String) (size : Option ℕ)
        → offer_with (get "name" body) id size ≡ ok o
        → (id ≡ some o.id) × (size ≡ some o.size) × (o.size ≤ max_file_bytes) × IsPlain o.name
    go none size e = cc
    go (some id) none e = cc
    go (some id) (some size) e = elim (Bool-cases (ltb max_file_bytes size)) [
      | inl big ↦ let e' = rw big at e in cc
      | inr small ↦
          let e' = rw small at e in
          let q : record { id = id; name = safe_name (get "name" body); size = size } ≡ o =
            ok-injective e' in
          (
            ap (λ (x : Offer). some x.id) q,
            ap (λ (x : Offer). some x.size) q,
            (let z = ap (λ (x : Offer). x.size) q in
                omega (arith, le_of_ltb max_file_bytes size small)),
            subst (λ (x : Offer). IsPlain x.name) q (safe_name-IsPlain (get "name" body)),
          )
    ]

-- `unique_path` never returns a path that is taken.
first_free-free :
    (taken : Text → Bool) (numbered : ℕ → Text) (left index : ℕ) (path : Text)
    → first_free taken numbered left index ≡ some path
    → taken path ≡ false
unfolding first_free
first_free-free taken numbered zero index path h = cc
first_free-free taken numbered (suc left) index path h =
    elim (Bool-cases (taken (numbered index))) [
      | inl e ↦ first_free-free taken numbered left (index + 1) path (rw e at h)
      | inr e ↦ let h' = rw e at h in ground arith
    ]

shift : (n m : ℕ) → n + 1 + m ≡ n + suc m
shift n m = omega arith

-- it gives up only when all of the numbered names are taken
first_free-none :
    (taken : Text → Bool) (numbered : ℕ → Text) (left index : ℕ)
    → first_free taken numbered left index ≡ none
    → (k : ℕ) → k < left
    → taken (numbered (index + k)) ≡ true
unfolding first_free
first_free-none taken numbered zero index h k lt = absurd (omega arith)
first_free-none taken numbered (suc left) index h zero lt =
    elim (Bool-cases (taken (numbered index))) [
      | inl e ↦ rw add-zero e
      | inr e ↦ let h' = rw e at h in cc
    ]
first_free-none taken numbered (suc left) index h (suc k) lt =
    elim (Bool-cases (taken (numbered index))) [
      | inl e ↦
          let h' = rw e at h in
          rw (← shift index k) (first_free-none taken numbered left (index + 1) h' k (omega arith))
      | inr e ↦ let h' = rw e at h in cc
    ]

ok_text : {a b : Text} → ok a ≡ ok b → a ≡ b
ok_text e = cc

-- `unique_path` returns a path that does not exist, and raises only when the name and all 998
-- numbered names exist.
pub unique_path_free :
    (taken : Text → Bool) (numbered : ℕ → Text) (name : Text)
    → ((path : Text) → unique_path taken numbered name ≡ ok path → taken path ≡ false)
      × ((e : TransferError)
          → unique_path taken numbered name ≡ err e
          → (taken name ≡ true) × ((k : ℕ) → k < 998 → taken (numbered (2 + k)) ≡ true))
unfolding unique_path
unique_path_free taken numbered name = elim (Bool-cases (taken name)) [
  | inl e ↦
      let r = by_number (first_free taken numbered tries 2) refl in
      rw e (r.0, (λ err_is h. (refl, r.1 err_is h)))
  | inr e ↦ rw e ((λ path h. rw (← ok_text h) e), (λ err_is h. cc))
]
  where
    by_number :
        (o : Option Text)
        → first_free taken numbered tries 2 ≡ o
        → ((path : Text) → found o ≡ ok path → taken path ≡ false)
          × ((e : TransferError)
              → found o ≡ err e
              → (k : ℕ) → k < 998
              → taken (numbered (2 + k)) ≡ true)
    by_number none p = ((λ path h. cc), (λ e h. first_free-none taken numbered tries 2 p))
    by_number (some found_path) p = (
      (λ path h. rw (← ok_text h) (first_free-free taken numbered tries 2 found_path p)),
      (λ e h. cc),
    )
