-- ===== src/Transfers/Naming/Dots.antt =====
-- daemon/fedoralink/transfers.py: the first character of the name that `safe_name` gives.
use fedoralink.Prelude.{
  ℕ, ◌≡◌, inl, inr, refl, sym, ◌∙◌, ap, String, Bool, true, false, [], ◌∷◌, ◌==◌, ◌&&◌, is_empty,
  take, arith, Bool-cases,
}
use fedoralink.Json.{Json, null, bool, int, negsuc, float, str, arr, obj, as_str}
use fedoralink.Auth.{codes}
use fedoralink.Transfers.{Text, lstrip, rstrip, base_of, or_fallback, safe_text, safe_name}
use fedoralink.Transfers.Naming.{IsPlain, safe_name-IsPlain}

unfoldable pub begins : ℕ → Text → Bool
begins b [] = false
begins b (c ∷ cs) = c == b

begins-lstrip : (b : ℕ) (cs : Text) → begins b (lstrip b cs) ≡ false
unfolding begins lstrip
begins-lstrip b [] = refl
begins-lstrip b (c ∷ cs) = elim (Bool-cases (c == b)) [
  | inl e ↦ rw e (begins-lstrip b cs)
  | inr e ↦ rw e e
]

begins-rstrip : (b x : ℕ) (cs : Text) → begins b (rstrip x cs) ≡ true → begins b cs ≡ true
unfolding begins rstrip
begins-rstrip b x [] h = h
begins-rstrip b x (c ∷ cs) h = elim (Bool-cases (is_empty (rstrip x cs) && c == x)) [
  | inl e ↦ let h' = rw e at h in ground arith
  | inr e ↦ rw e at h
]

lstrip_other : (b : ℕ) (cs : Text) → begins b cs ≡ false → lstrip b cs ≡ cs
unfolding begins lstrip
lstrip_other b [] h = refl
lstrip_other b (c ∷ cs) h = rw h refl

begins-take : (b : ℕ) (cs : Text) → begins b (take 200 cs) ≡ begins b cs
unfolding begins
begins-take b [] = refl
begins-take b (c ∷ cs) = refl

begins-or_fallback : (cs : Text) → begins b'.' (or_fallback cs) ≡ true → begins b'.' cs ≡ true
unfolding begins
begins-or_fallback [] h = h
begins-or_fallback (c ∷ cs) h = h

base_dot : (name : Text) → begins b'.' (base_of name) ≡ false
unfolding base_of
base_dot name = begins-lstrip b'.' _

stripped_dot :
    (base : Text)
    → begins b'.' base ≡ false
    → begins b'.' (or_fallback (rstrip b'_' (lstrip b'_' (take 200 base)))) ≡ true
    → begins b'_' base ≡ true
stripped_dot base no_dot h = elim (Bool-cases (begins b'_' base)) [
  | inl e ↦ e
  | inr e ↦
      let whole = lstrip_other b'_' (take 200 base) (begins-take b'_' base ∙ e) in
      let inner = begins-rstrip b'.' b'_' (lstrip b'_' (take 200 base)) (begins-or_fallback _ h) in
      let dot : begins b'.' base ≡ true =
        sym (begins-take b'.' base) ∙ sym (ap (begins b'.') whole) ∙ inner in
      let z : true ≡ false = sym dot ∙ no_dot in ground arith
]

-- Whatever value the peer sends as a name: the name that is used is plain, and it begins with a dot
-- only for a text whose last component, with other characters replaced and leading dots taken off,
-- begins with an underscore.
pub safe_name-begins :
    (name : Json)
    → IsPlain (safe_name name)
      × (begins b'.' (safe_name name) ≡ true
          → (s : String) × (name ≡ str s) × (begins b'_' (base_of (codes s)) ≡ true))
unfolding safe_name as_str begins
safe_name-begins (str s) = (
  safe_name-IsPlain (str s),
  (λ h. (s, refl, stripped_dot (base_of (codes s)) (base_dot (codes s)) (unfold safe_text in h))),
)
safe_name-begins null = (safe_name-IsPlain null, (λ h. ground arith))
safe_name-begins (bool b) = (safe_name-IsPlain (bool b), (λ h. ground arith))
safe_name-begins (int n) = (safe_name-IsPlain (int n), (λ h. ground arith))
safe_name-begins (negsuc n) = (safe_name-IsPlain (negsuc n), (λ h. ground arith))
safe_name-begins (float bits) = (safe_name-IsPlain (float bits), (λ h. ground arith))
safe_name-begins (arr items) = (safe_name-IsPlain (arr items), (λ h. ground arith))
safe_name-begins (obj fields) = (safe_name-IsPlain (obj fields), (λ h. ground arith))
