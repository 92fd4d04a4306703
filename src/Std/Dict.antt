-- ===== src/Std/Dict.antt =====
-- `HashMap` as an association list. The order of the list stands for the map's iteration order,
-- which the standard library leaves open. No operation makes a second entry for a key.
use amail_bridge.Common.{
  ◌≡◌, refl, Bool, true, false, Option, none, some, List, [], ◌∷◌, arith, Eq, same, if◌then◌else◌,
}

abbrev pub Dict {ℓ κ} : Type ℓ → Type κ → Type (ℓ ⊔ κ)
Dict K V = List (K × V)

unfoldable pub keys {ℓ κ} : {K : Type ℓ} {V : Type κ} → Dict K V → List K
keys [] = []
keys ((k, v) ∷ d) = k ∷ keys d

unfoldable pub values {ℓ κ} : {K : Type ℓ} {V : Type κ} → Dict K V → List V
values [] = []
values ((k, v) ∷ d) = v ∷ values d

-- `retain`
unfoldable pub retain {ℓ κ} : {K : Type ℓ} {V : Type κ} → (V → Bool) → Dict K V → Dict K V
retain p [] = []
retain p ((k, v) ∷ d) = let rest = retain p d in if p v then (k, v) ∷ rest else rest

module _ {ℓ κ} {K : Type ℓ} {V : Type κ} ⦃e : Eq K⦄ where
  unfoldable pub get : K → Dict K V → Option V
  get k [] = none
  get k ((j, v) ∷ d) = if same k j then some v else get k d

  unfoldable pub insert : K → V → Dict K V → Dict K V
  insert k v [] = (k, v) ∷ []
  insert k v ((j, w) ∷ d) = if same k j then (k, v) ∷ d else (j, w) ∷ insert k v d

  unfoldable pub remove : K → Dict K V → Dict K V
  remove k [] = []
  remove k ((j, w) ∷ d) = let rest = remove k d in if same k j then rest else (j, w) ∷ rest

  unfoldable pub contains_key : K → Dict K V → Bool
  contains_key k [] = false
  contains_key k ((j, v) ∷ d) = if same k j then true else contains_key k d

  -- No key has two entries.
  abbrev pub NodupKeys : Dict K V → Type κ
  NodupKeys [] = Unit
  NodupKeys ((k, _) ∷ d) = (get k d ≡ none) × NodupKeys d

  pub get-cons :
      (j k : K) (v : V) (d : Dict K V) → get j ((k, v) ∷ d) ≡ (if same j k then some v else get j d)
  unfolding get
  get-cons j k v d = refl

  pub get-insert :
      (j k : K) (v : V) (d : Dict K V)
      → get j (insert k v d) ≡ (if same j k then some v else get j d)
  unfolding get insert
  get-insert j k v [] = refl
  get-insert j k v ((i, w) ∷ d) = ground (arith, get-insert j k v d)

  pub get-remove :
      (j k : K) (d : Dict K V) → get j (remove k d) ≡ (if same j k then none else get j d)
  unfolding get remove
  get-remove j k [] = ground arith
  get-remove j k ((i, w) ∷ d) = ground (arith, get-remove j k d)

  pub get-retain_of_keep :
      (p : V → Bool) (k : K) (d : Dict K V) (v : V)
      → get k d ≡ some v
      → p v ≡ true
      → get k (retain p d) ≡ some v
  unfolding get retain
  get-retain_of_keep p k [] v h q = cc
  get-retain_of_keep p k ((j, w) ∷ d) v h q = ground (arith, get-retain_of_keep p k d v)

  pub get-retain-none :
      (p : V → Bool) (k : K) (d : Dict K V) → get k d ≡ none → get k (retain p d) ≡ none
  unfolding get retain
  get-retain-none p k [] h = refl
  get-retain-none p k ((j, w) ∷ d) h = ground (arith, get-retain-none p k d)

  pub get-retain_of_drop :
      (p : V → Bool) (k : K) (d : Dict K V) (v : V)
      → NodupKeys d
      → get k d ≡ some v
      → p v ≡ false
      → get k (retain p d) ≡ none
  unfolding get retain
  get-retain_of_drop p k [] v u h q = cc
  get-retain_of_drop p k ((j, w) ∷ d) v (fresh, u) h q =
      ground (arith, get-retain_of_drop p k d v u, get-retain-none p k d)

  pub retain-NodupKeys : (p : V → Bool) (d : Dict K V) → NodupKeys d → NodupKeys (retain p d)
  unfolding retain
  retain-NodupKeys p [] u = tt
  retain-NodupKeys p ((j, w) ∷ d) (fresh, u) =
      ground (arith, retain-NodupKeys p d u, get-retain-none p j d fresh)

  pub insert-NodupKeys : (k : K) (v : V) (d : Dict K V) → NodupKeys d → NodupKeys (insert k v d)
  unfolding insert get
  insert-NodupKeys k v [] u = (refl, tt)
  insert-NodupKeys k v ((j, w) ∷ d) (fresh, u) =
      ground (arith, insert-NodupKeys k v d u, get-insert j k v d)

  pub remove-NodupKeys : (k : K) (d : Dict K V) → NodupKeys d → NodupKeys (remove k d)
  unfolding remove
  remove-NodupKeys k [] u = tt
  remove-NodupKeys k ((j, w) ∷ d) (fresh, u) =
      ground (arith, remove-NodupKeys k d u, get-remove j k d)

  pub contains_key-get :
      (k : K) (d : Dict K V) → contains_key k d ≡ (elim (get k d) [ none ↦ false | some _ ↦ true ])
  unfolding get contains_key
  contains_key-get k [] = refl
  contains_key-get k ((j, v) ∷ d) = ground (arith, contains_key-get k d)
