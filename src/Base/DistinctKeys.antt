-- ===== src/Base/DistinctKeys.antt =====
-- Maps whose keys are distinct, as those of the source's containers are.
use mathlib.Core.Path.{◌≡◌, refl, sym, subst, ◌∙◌}
use mathlib.Core.Logic.{◌⊎◌, inl, inr}
use mathlib.Core.Bool.{false, ◌||◌}
use mathlib.Core.Option.{none, some}
use mathlib.Core.List.{List, [], ◌∷◌}
use native.Mathlib.Omega.{arith}
use p2p_gpu.Base.Tests.{Bool-cases, Option-cases}
use p2p_gpu.Base.Keys.{Eq, contains}
use p2p_gpu.Base.Maps.{lookup, insert, remove, emplace, lookup-insert, keys, AllEntries}

module _ {ℓ} {K : Type ℓ} ⦃e : Eq K⦄ where
  abbrev pub Distinct : List K → Type 0
  Distinct [] = Unit
  Distinct (k ∷ ks) = (contains ks k ≡ false) × Distinct ks

module _ {ℓ κ} {K : Type ℓ} {V : Type κ} ⦃e : Eq K⦄ where
  pub contains-keys-insert :
      (k j : K) (v : V) (m : List (K × V))
      → contains (keys (insert k v m)) j ≡ (contains (keys m) j || e.beq k j)
  unfolding insert
  contains-keys-insert k j v [] = ground arith
  contains-keys-insert k j v ((i, w) ∷ m) =
      ground (arith, e.beq_iff i k, e.beq_iff i j, e.beq_iff k j, contains-keys-insert k j v m)

  pub insert-Distinct :
      (k : K) (v : V) (m : List (K × V)) → Distinct (keys m) → Distinct (keys (insert k v m))
  unfolding insert
  insert-Distinct k v [] d = (refl, tt)
  insert-Distinct k v ((j, w) ∷ m) d =
      ground (
        arith,
        insert-Distinct k v m d.1,
        contains-keys-insert k j v m,
        e.beq_iff j k,
        e.beq_iff k j,
      )

  pub emplace-Distinct :
      (k : K) (v : V) (m : List (K × V)) → Distinct (keys m) → Distinct (keys (emplace k v m))
  unfolding emplace
  emplace-Distinct k v m d = elim (Option-cases (lookup k m)) [
    | inl q ↦ rw (q, emplace) (insert-Distinct k v m d)
    | inr (w, q) ↦ rw (q, emplace) d
  ]

  abbrev pub Found : List (K × V) → List (K × V) → Type κ
  Found m n = AllEntries (λ k v. lookup k m ≡ some v) n

  -- A write at a key that a part of the map does not have is not seen there.
  pub insert-Found :
      (j : K) (w : V) (m n : List (K × V))
      → contains (keys n) j ≡ false
      → Found m n
      → Found (insert j w m) n
  insert-Found j w m [] h f = tt
  insert-Found j w m ((k, v) ∷ n) h f = (
    ground (arith, lookup-insert j k w m, e.beq_iff k j, e.beq_iff j k, f.0),
    insert-Found j w m n (ground arith) f.1,
  )

  cons-Found :
      (j : K) (w : V) (m n : List (K × V))
      → contains (keys n) j ≡ false
      → Found m n
      → Found ((j, w) ∷ m) n
  unfolding lookup
  cons-Found j w m [] h f = tt
  cons-Found j w m ((k, v) ∷ n) h f =
      (ground (arith, e.beq_iff k j, e.beq_iff j k, f.0), cons-Found j w m n (ground arith) f.1)

  -- Each entry of such a map is what a look-up at its key gives.
  pub Found-self : (m : List (K × V)) → Distinct (keys m) → Found m m
  unfolding lookup
  Found-self [] d = tt
  Found-self ((j, w) ∷ m) d =
      (ground (arith, e.beq_iff j j), cons-Found j w m m d.0 (Found-self m d.1))

  pub lookup-none_of_keys :
      (k : K) (m : List (K × V)) → contains (keys m) k ≡ false → lookup k m ≡ none
  unfolding lookup
  lookup-none_of_keys k [] h = refl
  lookup-none_of_keys k ((j, w) ∷ m) h = ground (arith, lookup-none_of_keys k m)

  -- What is erased is not found again.
  pub lookup-remove_self :
      (k : K) (m : List (K × V)) → Distinct (keys m) → lookup k (remove k m) ≡ none
  unfolding lookup remove
  lookup-remove_self k [] d = refl
  lookup-remove_self k ((j, w) ∷ m) d = elim (Bool-cases (e.beq j k)) [
    | inl same ↦ rw same (
        lookup-none_of_keys k m
          (subst (λ x. contains (keys m) x ≡ false) ((e.beq_iff j k).0 same) d.0))
    | inr other ↦ rw (other, other) (lookup-remove_self k m d.1)
  ]

  -- An erasure brings no key.
  contains-keys-remove :
      (k j : K) (m : List (K × V))
      → contains (keys m) j ≡ false
      → contains (keys (remove k m)) j ≡ false
  unfolding remove
  contains-keys-remove k j [] h = refl
  contains-keys-remove k j ((i, w) ∷ m) h = ground (arith, contains-keys-remove k j m)

  pub remove-Distinct :
      (k : K) (m : List (K × V)) → Distinct (keys m) → Distinct (keys (remove k m))
  unfolding remove
  remove-Distinct k [] d = tt
  remove-Distinct k ((j, w) ∷ m) d = elim (Bool-cases (e.beq j k)) [
    | inl same ↦ rw same d.1
    | inr other ↦ rw other (contains-keys-remove k j m d.0, remove-Distinct k m d.1)
  ]

  -- An insertion gives its own value at its key, and the old one elsewhere.
  pub lookup-insert_cases :
      (k j : K) (v w : V) (m : List (K × V))
      → lookup j (insert k v m) ≡ some w
      → ((k ≡ j) × (v ≡ w)) ⊎ ((e.beq k j ≡ false) × (lookup j m ≡ some w))
  lookup-insert_cases k j v w m q = ground (arith, lookup-insert k j v m, e.beq_iff k j)

  -- Other keys stay.
  pub lookup-remove_other :
      (k j : K) (m : List (K × V)) → e.beq k j ≡ false → lookup j (remove k m) ≡ lookup j m
  unfolding lookup remove
  lookup-remove_other k j [] h = refl
  lookup-remove_other k j ((i, w) ∷ m) h =
      ground (arith, lookup-remove_other k j m h, e.beq_iff i k, e.beq_iff i j, e.beq_iff k j)

  -- What is found after an erasure was there, under another key.
  pub lookup-remove_found :
      (k j : K) (w : V) (m : List (K × V))
      → Distinct (keys m)
      → lookup j (remove k m) ≡ some w
      → (e.beq k j ≡ false) × (lookup j m ≡ some w)
  lookup-remove_found k j w m d q = elim (Bool-cases (e.beq k j)) [
    | inl same ↦
        let gone =
          subst (λ x. lookup x (remove k m) ≡ none) ((e.beq_iff k j).0 same)
            (lookup-remove_self k m d) in
        cc
    | inr other ↦ (other, sym (lookup-remove_other k j m other) ∙ q)
  ]
