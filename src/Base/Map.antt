-- ===== src/Base/Map.antt =====
-- Go maps as association lists. Go ranges over a map in an unspecified order: a map is read here
-- in the order of its list, and no theorem fixes that order.
use mathlib.Core.Path.{◌≡◌, refl}
use mathlib.Core.Option.{Option, none, some}
use mathlib.Core.List.{List, [], ◌∷◌}
use native.Mathlib.Omega.{arith}
use omniup_vpn.Base.Bools.{if◌then◌else◌, Bool-cases}
use mathlib.Core.Logic.{inl, inr}
use omniup_vpn.Base.Keys.{Eq}

abbrev pub Map {ℓ} : Type ℓ → Type ℓ → Type ℓ
Map K V = List (K × V)

module _ {ℓ} {K V : Type ℓ} ⦃e : Eq K⦄ where
  unfoldable pub get : K → Map K V → Option V
  get k [] = none
  get k ((j, v) ∷ m) = if e.beq j k then some v else get k m

  unfoldable pub delete : K → Map K V → Map K V
  delete k [] = []
  delete k ((j, v) ∷ m) = let rest = delete k m in if e.beq j k then rest else (j, v) ∷ rest

  unfoldable pub put : K → V → Map K V → Map K V
  put k v m = (k, v) ∷ delete k m

  -- A write through the pointer that the map holds under `k`.
  unfoldable pub modify : K → (V → V) → Map K V → Map K V
  modify k f [] = []
  modify k f ((j, v) ∷ m) = (if e.beq j k then (j, f v) else (j, v)) ∷ modify k f m

  pub get-delete :
      (k j : K) (m : Map K V) → get j (delete k m) ≡ (if e.beq k j then none else get j m)
  unfolding get delete
  get-delete k j [] = ground arith
  get-delete k j ((i, v) ∷ m) =
      ground (arith, get-delete k j m, e.beq_iff i k, e.beq_iff i j, e.beq_iff k j)

  pub get-put :
      (k j : K) (v : V) (m : Map K V) → get j (put k v m) ≡ (if e.beq k j then some v else get j m)
  unfolding get put
  get-put k j v m = ground (arith, get-delete k j m)

  -- No key stands twice.
  abbrev pub Unique : Map K V → Type ℓ
  Unique [] = Unit
  Unique ((k, v) ∷ m) = (get k m ≡ none) × Unique m

  pub delete-Unique : (k : K) (m : Map K V) → Unique m → Unique (delete k m)
  unfolding delete
  delete-Unique k [] h = h
  delete-Unique k ((j, v) ∷ m) h =
      ground (arith, delete-Unique k m, get-delete k j m, e.beq_iff j k, e.beq_iff k j)

  pub put-Unique : (k : K) (v : V) (m : Map K V) → Unique m → Unique (put k v m)
  unfolding put
  put-Unique k v m h = ground (arith, delete-Unique k m, get-delete k k m, e.beq_iff k k)

  get-modify-none :
      (k j : K) (f : V → V) (m : Map K V) → get j m ≡ none → get j (modify k f m) ≡ none
  unfolding get modify
  get-modify-none k j f [] h = refl
  get-modify-none k j f ((i, v) ∷ m) h = ground (arith, get-modify-none k j f m)

  pub get-modify_same :
      (k : K) (f : V → V) (m : Map K V) (v : V)
      → get k m ≡ some v
      → get k (modify k f m) ≡ some (f v)
  unfolding get modify
  get-modify_same k f [] v h = absurd (ground arith)
  get-modify_same k f ((i, w) ∷ m) v h = ground (arith, get-modify_same k f m v)

  pub modify-Unique : (k : K) (f : V → V) (m : Map K V) → Unique m → Unique (modify k f m)
  unfolding modify
  modify-Unique k f [] h = h
  modify-Unique k f ((j, v) ∷ m) h = ground (arith, modify-Unique k f m, get-modify-none k j f m)

-- Every entry of the map.
abbrev pub All {ℓ κ} : {K V : Type ℓ} → (K → V → Type κ) → Map K V → Type κ
All P [] = Unit
All P ((k, v) ∷ m) = P k v × All P m

module _ {ℓ κ} {K V : Type ℓ} ⦃e : Eq K⦄ (P : K → V → Type κ) where
  pub All-delete : (k : K) (m : Map K V) → All P m → All P (delete k m)
  unfolding delete
  All-delete k [] h = h
  All-delete k ((j, v) ∷ m) h = ground (arith, All-delete k m)

  pub All-get : (k : K) (m : Map K V) (v : V) → All P m → get k m ≡ some v → P k v
  unfolding get
  All-get k [] v h g = absurd (ground arith)
  All-get k ((j, w) ∷ m) v h g = ground (arith, All-get k m v, e.beq_iff j k)

  pub All-modify :
      (k : K) (f : V → V)
      → ((j : K) (v : V) → P j v → P j (f v))
      → (m : Map K V) → All P m
      → All P (modify k f m)
  unfolding modify
  All-modify k f keep [] h = h
  All-modify k f keep ((j, v) ∷ m) h = ground (arith, All-modify k f keep m, keep j v)

  -- The same, for an update that keeps the property at its own key only.
  pub All-modify_at :
      (k : K) (f : V → V)
      → ((v : V) → P k v → P k (f v))
      → (m : Map K V) → All P m
      → All P (modify k f m)
  unfolding modify
  All-modify_at k f keep [] h = h
  All-modify_at k f keep ((j, v) ∷ m) h = elim (Bool-cases (e.beq j k)) [
    | inl q ↦
        let same : j ≡ k = (e.beq_iff j k).0 q in
        rw (same, (e.beq_iff k k).1 refl) (keep v (rw (← same) h.0), All-modify_at k f keep m h.1)
    | inr q ↦ rw q (h.0, All-modify_at k f keep m h.1)
  ]
