-- ===== src/Prelude/Map.antt =====
-- A finite map as an association list: `llvm::DenseMap` and `std::unordered_map` as they are
-- observed by `find`, `operator[]`, `count` and `size`.
use Prim.Native.Nat.{suc}
use mathlib.Core.Path.{◌≡◌, refl, subst}
use mathlib.Core.Logic.{inl, inr, ◌≢◌}
use mathlib.Core.Option.{Option, none, some, some-injective}
use mathlib.Core.List.{List, [], ◌∷◌}
use native.Mathlib.Omega.{arith}
use llvm_opt_passes.Prelude.Tests.{if◌then◌else◌, HasEq, Bool-cases}
use llvm_opt_passes.Prelude.Lists.{length, All}

module _ {ℓ κ} {K : Type ℓ} ⦃e : HasEq K⦄ {V : Type κ} where
  -- `M.find(K)`
  unfoldable pub lookup : K → List (K × V) → Option V
  lookup k [] = none
  lookup k ((j, v) ∷ m) = if e.same j k then some v else lookup k m

  -- `M[K] = V`
  unfoldable pub insert : K → V → List (K × V) → List (K × V)
  insert k v [] = (k, v) ∷ []
  insert k v ((j, w) ∷ m) = if e.same j k then (k, v) ∷ m else (j, w) ∷ insert k v m

  pub lookup-insert :
      (k j : K) (v : V) (m : List (K × V))
      → lookup j (insert k v m) ≡ (if e.same k j then some v else lookup j m)
  unfolding lookup insert
  lookup-insert k j v [] = refl
  lookup-insert k j v ((i, w) ∷ m) =
      ground (arith, e.same_iff k j, e.same_iff i k, e.same_iff i j, lookup-insert k j v m)

  pub length-insert_new :
      (k : K) (v : V) (m : List (K × V))
      → lookup k m ≡ none
      → length (insert k v m) ≡ suc (length m)
  unfolding lookup insert
  length-insert_new k v [] h = refl
  length-insert_new k v ((i, w) ∷ m) h = ground (arith, length-insert_new k v m)

  pub All-insert {μ} :
      (P : K × V → Type μ) (k : K) (v : V) (m : List (K × V))
      → P (k, v)
      → All P m
      → All P (insert k v m)
  unfolding insert
  All-insert P k v [] h hm = (h, tt)
  All-insert P k v ((j, w) ∷ m) h hm = elim (Bool-cases (e.same j k)) [
    | inl here ↦ rw here (h, hm.1)
    | inr other ↦ rw other (hm.0, All-insert P k v m h hm.1)
  ]

  pub All-lookup {μ} :
      (P : K → V → Type μ) (k : K) (m : List (K × V)) {v : V}
      → lookup k m ≡ some v
      → All (λ (p : K × V). P p.0 p.1) m
      → P k v
  unfolding lookup
  All-lookup P k [] h hm = absurd (ground arith)
  All-lookup P k ((j, w) ∷ m) {v} h hm = elim (Bool-cases (e.same j k)) [
    | inl here ↦
        let same_value : w ≡ v = some-injective _ _ (rw here at h) in
        subst (λ j. P j v) ((e.same_iff j k).0 here) (subst (P j) same_value hm.0)
    | inr other ↦ All-lookup P k m (rw other at h) hm.1
  ]

  -- What is not found is no key.
  pub All-of_lookup-none :
      (k : K) (m : List (K × V)) → lookup k m ≡ none → All (λ (p : K × V). k ≢ p.0) m
  unfolding lookup
  All-of_lookup-none k [] h = tt
  All-of_lookup-none k ((j, w) ∷ m) h = elim (Bool-cases (e.same j k)) [
    | inl here ↦ absurd (ground arith)
    | inr other ↦
        (λ (q : k ≡ j). ground (arith, e.same_iff j k), All-of_lookup-none k m (rw other at h))
  ]
