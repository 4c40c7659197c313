-- ===== src/Common/Dict.antt =====
-- Maps as association lists: std::map and std::unordered_map. No order of iteration is relied on.
use Prim.Native.Nat.{suc, ◌≤◌}
use mathlib.Core.Path.{◌≡◌, refl}
use mathlib.Core.Option.{Option, none, some}
use mathlib.Core.List.{List, [], ◌∷◌}
use native.Mathlib.Omega.{arith}
use packages_modules_stats_d.Common.Tests.{Eq, if◌then◌else◌}
use packages_modules_stats_d.Common.Lists.{length}

abbrev pub Dict {ℓ κ} : Type ℓ → Type κ → Type (ℓ ⊔ κ)
Dict K V = List (K × V)

module _ {ℓ κ} {K : Type ℓ} {V : Type κ} ⦃e : Eq K⦄ where
  -- m.find(k)
  unfoldable pub get : Dict K V → K → Option V
  get [] k = none
  get ((j, v) ∷ m) k = if e.beq j k then some v else get m k

  -- m[k] = v
  unfoldable pub put : Dict K V → K → V → Dict K V
  put [] k v = (k, v) ∷ []
  put ((j, w) ∷ m) k v = if e.beq j k then (k, v) ∷ m else (j, w) ∷ put m k v

  -- m.erase(k)
  unfoldable pub erase : Dict K V → K → Dict K V
  erase [] k = []
  erase ((j, v) ∷ m) k = let rest = erase m k in if e.beq j k then rest else (j, v) ∷ rest

  pub get-put :
      (m : Dict K V) (k j : K) (v : V) → get (put m k v) j ≡ (if e.beq k j then some v else get m j)
  unfolding get put
  get-put [] k j v = refl
  get-put ((i, w) ∷ m) k j v =
      ground (arith, e.beq_iff k j, e.beq_iff i k, e.beq_iff i j, get-put m k j v)

  pub get-erase :
      (m : Dict K V) (k j : K) → get (erase m k) j ≡ (if e.beq k j then none else get m j)
  unfolding get erase
  get-erase [] k j = ground arith
  get-erase ((i, w) ∷ m) k j =
      ground (arith, e.beq_iff k j, e.beq_iff i k, e.beq_iff i j, get-erase m k j)

  -- A write to a key that is there keeps the size; a new key adds one entry.
  pub length-put :
      (m : Dict K V) (k : K) (v : V)
      → length (put m k v) ≡ (elim (get m k) [ none ↦ suc (length m) | some _ ↦ length m ])
  unfolding get put
  length-put [] k v = refl
  length-put ((i, w) ∷ m) k v = ground (arith, length-put m k v)

  pub length-erase : (m : Dict K V) (k : K) → length (erase m k) ≤ length m
  unfolding erase
  length-erase [] k = omega arith
  length-erase ((i, w) ∷ m) k = ground (arith, length-erase m k)
