-- ===== src/Prelude/Lists.antt =====
-- Lists measured by native numbers, under the library's names, and predicates on them.
use Prim.Native.Nat.{ℕ, zero, suc, ◌+◌, ◌-◌, ◌≤◌, min}
use mathlib.Core.Path.{◌≡◌, refl, ap}
use mathlib.Core.List.{List, [], ◌∷◌, ◌++◌}
use mathlib.Core.Bool.{Bool, true, false, ◌&&◌}
use native.Mathlib.Numerals.{add-one}
use native.Mathlib.Omega.{arith}

module _ {ℓ} {A : Type ℓ} where
  abbrev pub length : List A → ℕ
  length [] = 0
  length (x ∷ xs) = suc (length xs)

  abbrev pub take : ℕ → List A → List A
  take zero xs = []
  take (suc n) [] = []
  take (suc n) (x ∷ xs) = x ∷ take n xs

  abbrev pub drop : ℕ → List A → List A
  drop zero xs = xs
  drop (suc n) [] = []
  drop (suc n) (x ∷ xs) = drop n xs

  abbrev pub is_empty : List A → Bool
  is_empty [] = true
  is_empty (x ∷ xs) = false

  -- Every element passes a test.
  abbrev pub every : (A → Bool) → List A → Bool
  every p [] = true
  every p (x ∷ xs) = p x && every p xs

module _ {ℓ} {A : Type ℓ} where
  pub length-append : (xs ys : List A) → length (xs ++ ys) ≡ length xs + length ys
  length-append [] ys = omega arith
  length-append (x ∷ xs) ys = omega (arith, length-append xs ys)

  pub take_append : (xs ys : List A) → take (length xs) (xs ++ ys) ≡ xs
  take_append [] ys = refl
  take_append (x ∷ xs) ys = ap (◌∷◌ x) (take_append xs ys)

  pub drop_append : (xs ys : List A) → drop (length xs) (xs ++ ys) ≡ ys
  drop_append [] ys = refl
  drop_append (x ∷ xs) ys = drop_append xs ys

  pub take-append_le : (n : ℕ) (xs ys : List A) → n ≤ length xs → take n (xs ++ ys) ≡ take n xs
  take-append_le zero xs ys h = refl
  take-append_le (suc n) [] ys h = absurd (omega arith)
  take-append_le (suc n) (x ∷ xs) ys h = ap (◌∷◌ x) (take-append_le n xs ys (omega arith))

  pub drop-append_le :
      (n : ℕ) (xs ys : List A) → n ≤ length xs → drop n (xs ++ ys) ≡ drop n xs ++ ys
  drop-append_le zero xs ys h = refl
  drop-append_le (suc n) [] ys h = absurd (omega arith)
  drop-append_le (suc n) (x ∷ xs) ys h = drop-append_le n xs ys (omega arith)

  pub take_of_length-le : (n : ℕ) (xs : List A) → length xs ≤ n → take n xs ≡ xs
  take_of_length-le (suc m) (y ∷ ys) le = ap (λ zs. y ∷ zs) (take_of_length-le m ys (omega arith))
  take_of_length-le (suc m) [] le = refl
  take_of_length-le zero (y ∷ ys) le = absurd (omega arith)
  take_of_length-le zero [] le = refl

  pub take-append-drop : (n : ℕ) (xs : List A) → take n xs ++ drop n xs ≡ xs
  take-append-drop zero xs = refl
  take-append-drop (suc n) [] = refl
  take-append-drop (suc n) (x ∷ xs) = ap (◌∷◌ x) (take-append-drop n xs)

  pub length-take : (n : ℕ) (xs : List A) → length (take n xs) ≡ min n (length xs)
  length-take zero xs = omega arith
  length-take (suc n) [] = omega arith
  length-take (suc n) (x ∷ xs) = omega (arith, length-take n xs)

  pub length-drop : (n : ℕ) (xs : List A) → length (drop n xs) ≡ length xs - n
  length-drop zero xs = omega arith
  length-drop (suc n) [] = omega arith
  length-drop (suc n) (x ∷ xs) = omega (arith, length-drop n xs)

  pub append_assoc_lem : (xs ys zs : List A) → (xs ++ ys) ++ zs ≡ xs ++ (ys ++ zs)
  append_assoc_lem [] ys zs = refl
  append_assoc_lem (x ∷ xs) ys zs = ap (◌∷◌ x) (append_assoc_lem xs ys zs)

  -- Two ways to cut one list, the first cut no later than the second.
  pub append_split :
      (xs ys us vs : List A)
      → xs ++ ys ≡ us ++ vs
      → length us ≤ length xs
      → (ms : List A) × (xs ≡ us ++ ms) × (ms ++ ys ≡ vs)
  append_split xs ys [] vs e h = (xs, refl, e)
  append_split [] ys (u ∷ us) vs e h = absurd (omega arith)
  append_split (x ∷ xs) ys (u ∷ us) vs e h =
      let (ms, p, q) = append_split xs ys us vs (cc) (omega arith) in (ms, cc, q)

  pub every_append :
      (p : A → Bool) (xs ys : List A) → every p (xs ++ ys) ≡ (every p xs && every p ys)
  every_append p [] ys = refl
  every_append p (x ∷ xs) ys = ground (arith, every_append p xs ys)

  pub every-take :
      (p : A → Bool) (n : ℕ) (xs : List A) → every p xs ≡ true → every p (take n xs) ≡ true
  every-take p zero xs h = refl
  every-take p (suc n) [] h = refl
  every-take p (suc n) (x ∷ xs) h = ground (arith, every-take p n xs)

  pub drop_append_cons :
      (xs : List A) (y : A) (ys : List A) → drop (length xs + 1) (xs ++ y ∷ ys) ≡ ys
  drop_append_cons xs y ys = rw add-one (go xs)
    where
      go : (zs : List A) → drop (suc (length zs)) (zs ++ y ∷ ys) ≡ ys
      go [] = refl
      go (z ∷ zs) = go zs

  pub take_append_at : (n : ℕ) (xs ys : List A) → n ≡ length xs → take n (xs ++ ys) ≡ xs
  take_append_at n xs ys e = rw e (take_append xs ys)

  pub drop_append_at : (n : ℕ) (xs ys : List A) → n ≡ length xs → drop n (xs ++ ys) ≡ ys
  drop_append_at n xs ys e = rw e (drop_append xs ys)
