-- ===== src/Json/Sorting.antt =====
-- `sort_keys=True` of `json.dump`, which devices.py writes its file with.
use fedoralink.Prelude.{
  ℕ, ◌≡◌, refl, ◌∙◌, String, Bool, true, false, List, [], ◌∷◌, str_eq, eq_iff, ltb, ◌==◌,
  if◌then◌else◌, arith, Bool-cases, inl, inr,
}
use fedoralink.Auth.{codes}
use fedoralink.Json.{
  Json, null, bool, int, negsuc, float, str, arr, obj, Items, nil, cons, Fields, end, field, get,
}

-- Python's order of texts: by the first code point that differs
unfoldable pub is_before : List ℕ → List ℕ → Bool
is_before [] [] = false
is_before [] (_ ∷ _) = true
is_before (_ ∷ _) [] = false
is_before (a ∷ xs) (b ∷ ys) =
    let rest = is_before xs ys in if ltb a b then true else if a == b then rest else false

-- an item, in front of the first one with no smaller key
unfoldable pub place : String → Json → Fields → Fields
place k v end = field k v end
place k v (field j w rest) =
    let placed = place k v rest in
    if is_before (codes j) (codes k) then field j w placed else field k v (field j w rest)

unfoldable mutual
  unfolding place

  pub sort_keys : Json → Json
  sort_keys null = null
  sort_keys (bool b) = bool b
  sort_keys (int n) = int n
  sort_keys (negsuc n) = negsuc n
  sort_keys (float bits) = float bits
  sort_keys (str s) = str s
  sort_keys (arr items) = arr (sort_items items)
  sort_keys (obj fields) = obj (sort_fields fields)

  pub sort_items : Items → Items
  sort_items nil = nil
  sort_items (cons v rest) = cons (sort_keys v) (sort_items rest)

  pub sort_fields : Fields → Fields
  sort_fields end = end
  sort_fields (field k v rest) = place k (sort_keys v) (sort_fields rest)

irreflexive : (cs : List ℕ) → is_before cs cs ≡ false
unfolding is_before
irreflexive [] = refl
irreflexive (c ∷ cs) = ground (arith, irreflexive cs)

-- Where an item is put changes nothing that a lookup finds.
pub get-place :
    (k j : String) (v : Json) (fs : Fields)
    → get j (place k v fs) ≡ (if str_eq k j then v else get j fs)
unfolding get place
get-place k j v end = refl
get-place k j v (field i w rest) = elim (Bool-cases (is_before (codes i) (codes k))) [
  | inr e ↦ rw e refl
  | inl e ↦
      rw (e, get-place k j v rest) (ground (arith, eq_iff k j, eq_iff i j, irreflexive (codes j)))
]

pub get-sort_fields : (j : String) (fs : Fields) → get j (sort_fields fs) ≡ sort_keys (get j fs)
unfolding get sort_fields sort_keys
get-sort_fields j end = refl
get-sort_fields j (field k v rest) =
    get-place k j (sort_keys v) (sort_fields rest)
    ∙ rw (get-sort_fields j rest)
        (elim (Bool-cases (str_eq k j)) [ inl e ↦ rw e refl | inr e ↦ rw e refl ])
