-- ===== src/Base/Maps.antt =====
-- Maps (`std::unordered_map`, `std::map`) as association lists. The order of the entries stands for
-- the order in which the container is iterated, which the theorems leave open.
use mathlib.Core.Path.{◌≡◌, refl, sym, subst}
use mathlib.Core.Logic.{inl, inr}
use mathlib.Core.Bool.{not, ◌&&◌}
use mathlib.Core.List.{List, [], ◌∷◌}
use mathlib.Core.Option.{Option, none, some}
use native.Mathlib.Omega.{arith}
use p2p_gpu.Base.Tests.{if◌then◌else◌, Bool-cases, Option-cases, is_some}
use p2p_gpu.Base.Keys.{Eq, beq_refl}

module _ {ℓ κ} {K : Type ℓ} {V : Type κ} ⦃e : Eq K⦄ where
  -- `m.find(k)`.
  unfoldable pub lookup : K → List (K × V) → Option V
  lookup k [] = none
  lookup k ((j, v) ∷ m) = if e.beq j k then some v else lookup k m

  -- `m[k] = v`; a new key goes to the end.
  unfoldable pub insert : K → V → List (K × V) → List (K × V)
  insert k v [] = (k, v) ∷ []
  insert k v ((j, w) ∷ m) = if e.beq j k then (j, v) ∷ m else (j, w) ∷ insert k v m

  -- `m.erase(k)`.
  unfoldable pub remove : K → List (K × V) → List (K × V)
  remove k [] = []
  remove k ((j, w) ∷ m) = if e.beq j k then m else (j, w) ∷ remove k m

  -- `m.emplace(k, v)`: a key that is present keeps its value.
  unfoldable pub emplace : K → V → List (K × V) → List (K × V)
  unfolding lookup insert
  emplace k v m = elim (lookup k m) [ none ↦ insert k v m | some _ ↦ m ]

  pub lookup-insert :
      (k j : K) (v : V) (m : List (K × V))
      → lookup j (insert k v m) ≡ (if e.beq k j then some v else lookup j m)
  unfolding lookup insert
  lookup-insert k j v [] = refl
  lookup-insert k j v ((i, w) ∷ m) =
      ground (arith, e.beq_iff k j, e.beq_iff i k, e.beq_iff i j, lookup-insert k j v m)

  pub lookup-insert_self : (k : K) (v : V) (m : List (K × V)) → lookup k (insert k v m) ≡ some v
  lookup-insert_self k v m = simp (lookup-insert, beq_refl)

  abbrev pub keys : List (K × V) → List K
  keys [] = []
  keys ((k, v) ∷ m) = k ∷ keys m

  abbrev pub values : List (K × V) → List V
  values [] = []
  values ((k, v) ∷ m) = v ∷ values m

  -- Every entry satisfies a predicate on its key and its value.
  abbrev pub AllEntries {μ} : (K → V → Type μ) → List (K × V) → Type μ
  AllEntries P [] = Unit
  AllEntries P ((k, v) ∷ m) = P k v × AllEntries P m

  -- What an insertion leaves of a predicate on the entries.
  pub insert-AllEntries {μ} :
      (P : K → V → Type μ) (k : K) (v : V) (m : List (K × V))
      → P k v
      → AllEntries P m
      → AllEntries P (insert k v m)
  unfolding insert
  insert-AllEntries P k v [] p h = (p, tt)
  insert-AllEntries P k v ((j, w) ∷ m) p h = elim (Bool-cases (e.beq j k)) [
    | inl same ↦ rw same (subst (λ x. P x v) (sym ((e.beq_iff j k).0 same)) p, h.1)
    | inr other ↦ rw other (h.0, insert-AllEntries P k v m p h.1)
  ]

  pub AllEntries-lookup {μ} :
      (P : K → V → Type μ) (k : K) (m : List (K × V)) (v : V)
      → AllEntries P m
      → lookup k m ≡ some v
      → P k v
  unfolding lookup
  AllEntries-lookup P k [] v h q = cc
  AllEntries-lookup P k ((j, w) ∷ m) v h q =
      ground (arith, h.0, e.beq_iff j k, AllEntries-lookup P k m v h.1)

  pub insert-insert :
      (k : K) (v w : V) (m : List (K × V)) → insert k v (insert k w m) ≡ insert k v m
  unfolding insert
  insert-insert k v w [] = ground (arith, e.beq_iff k k)
  insert-insert k v w ((j, u) ∷ m) = ground (arith, insert-insert k v w m)

  -- What an `emplace` leaves of a look-up: the new value only where there was none.
  pub lookup-emplace :
      (k j : K) (v : V) (m : List (K × V))
      → lookup j (emplace k v m)
        ≡ (if e.beq k j && not (is_some (lookup k m)) then some v else lookup j m)
  unfolding emplace
  lookup-emplace k j v m = elim (Option-cases (lookup k m)) [
    | inl q ↦ rw (q, emplace) (ground (arith, lookup-insert k j v m))
    | inr (w, q) ↦ rw (q, emplace) (ground arith)
  ]

  pub emplace-AllEntries {μ} :
      (P : K → V → Type μ) (k : K) (v : V) (m : List (K × V))
      → P k v
      → AllEntries P m
      → AllEntries P (emplace k v m)
  unfolding emplace
  emplace-AllEntries P k v m p h = elim (Option-cases (lookup k m)) [
    | inl q ↦ rw (q, emplace) (insert-AllEntries P k v m p h)
    | inr (w, q) ↦ rw (q, emplace) h
  ]
