-- ===== src/Coordinator/Fleet/Peers.antt =====
-- What a list of peers promises (`PeersHolding` of src/coordinator/fleet.cpp).
use p2p_gpu.Base.{
  ℕ, zero, suc, ◌≤◌, ◌≡◌, refl, inl, inr, true, false, not, ◌&&◌, List, [], ◌∷◌, arith, ◌==◌,
  Bool-cases, length, take, any_of, All, length-take, All-take,
}
use p2p_gpu.Protocol.Ids.{WorkerId, id_eq, id_eq_iff}
use p2p_gpu.Coordinator.Affinity.{AssetId, has_asset}
use p2p_gpu.Coordinator.Fleet.{
  WorkerRecord, Fleet, holders, id_le, insert_sorted, sort_ids, peers_holding,
}

-- A worker that is connected, is not the one that asks, and has the asset in its list.
abbrev pub IsHolder : {D : Type 0} → AssetId → WorkerId → Fleet D → WorkerId → Type 0
IsHolder asset exclude fleet id =
    (id_eq id exclude ≡ false)
    × (any_of (λ (w, r). id_eq w id && has_asset r.cached_assets asset) fleet ≡ true)

abbrev pub IsAscending : List WorkerId → Type 0
IsAscending [] = Unit
IsAscending (x ∷ xs) = All (λ y. id_le x y ≡ true) xs × IsAscending xs

module _ {D : Type 0} (asset : AssetId) (exclude : WorkerId) where
  weaken :
      (w : WorkerId) (r : WorkerRecord D) (fleet : Fleet D) (ids : List WorkerId)
      → All (IsHolder asset exclude fleet) ids
      → All (IsHolder asset exclude ((w, r) ∷ fleet)) ids
  weaken w r fleet [] h = tt
  weaken w r fleet (id ∷ ids) h = ((h.0.0, ground (arith, h.0.1)), weaken w r fleet ids h.1)

  holders-IsHolder :
      (fleet : Fleet D) → All (IsHolder asset exclude fleet) (holders asset exclude fleet)
  unfolding holders
  holders-IsHolder [] = tt
  holders-IsHolder ((w, r) ∷ fleet) =
      elim (Bool-cases (not (id_eq w exclude) && has_asset r.cached_assets asset)) [
        | inl chosen ↦ rw chosen (
          (ground (arith, chosen), ground (arith, chosen, (id_eq_iff w w).1 refl)),
          weaken w r fleet (holders asset exclude fleet) (holders-IsHolder fleet),
        )
        | inr skipped ↦
            rw skipped (weaken w r fleet (holders asset exclude fleet) (holders-IsHolder fleet))
      ]

module _ {κ} (P : WorkerId → Type κ) where
  insert_sorted-All :
      (x : WorkerId) (ys : List WorkerId) → P x → All P ys → All P (insert_sorted x ys)
  unfolding insert_sorted
  insert_sorted-All x [] p h = (p, tt)
  insert_sorted-All x (y ∷ ys) p h = elim (Bool-cases (id_le x y)) [
    | inl le ↦ rw le (p, h)
    | inr gt ↦ rw gt (h.0, insert_sorted-All x ys p h.1)
  ]

  sort_ids-All : (xs : List WorkerId) → All P xs → All P (sort_ids xs)
  unfolding sort_ids
  sort_ids-All [] h = tt
  sort_ids-All (x ∷ xs) h = insert_sorted-All x (sort_ids xs) h.0 (sort_ids-All xs h.1)

id_le-total : (x y : WorkerId) → id_le x y ≡ false → id_le y x ≡ true
unfolding id_le
id_le-total x y h = ground arith

id_le_trans : (x y z : WorkerId) → id_le x y ≡ true → id_le y z ≡ true → id_le x z ≡ true
unfolding id_le
id_le_trans x y z h k = ground arith

below-All :
    (x y : WorkerId) (ys : List WorkerId)
    → id_le x y ≡ true
    → All (λ z. id_le y z ≡ true) ys
    → All (λ z. id_le x z ≡ true) ys
below-All x y [] h k = tt
below-All x y (z ∷ ys) h k = (id_le_trans x y z h k.0, below-All x y ys h k.1)

insert_sorted-IsAscending :
    (x : WorkerId) (ys : List WorkerId) → IsAscending ys → IsAscending (insert_sorted x ys)
unfolding insert_sorted
insert_sorted-IsAscending x [] h = (tt, tt)
insert_sorted-IsAscending x (y ∷ ys) h = elim (Bool-cases (id_le x y)) [
  | inl le ↦ rw le ((le, below-All x y ys le h.0), h)
  | inr gt ↦ rw gt (
    insert_sorted-All (λ z. id_le y z ≡ true) x ys (id_le-total x y gt) h.0,
    insert_sorted-IsAscending x ys h.1,
  )
]

sort_ids-IsAscending : (xs : List WorkerId) → IsAscending (sort_ids xs)
unfolding sort_ids
sort_ids-IsAscending [] = tt
sort_ids-IsAscending (x ∷ xs) = insert_sorted-IsAscending x (sort_ids xs) (sort_ids-IsAscending xs)

take-IsAscending : (n : ℕ) (xs : List WorkerId) → IsAscending xs → IsAscending (take n xs)
take-IsAscending zero xs h = tt
take-IsAscending (suc n) [] h = tt
take-IsAscending (suc n) (x ∷ xs) h =
    (All-take (λ y. id_le x y ≡ true) n xs h.0, take-IsAscending n xs h.1)

-- A list of peers for an asset is no longer than the limit: each entry is a connected worker other than the
-- one that asks and with the asset in its list, in ascending order of their identifiers.
pub peers_holding_lem :
    {D : Type 0} (asset : AssetId) (exclude : WorkerId) (limit : ℕ) (fleet : Fleet D)
    → (length (peers_holding asset exclude limit fleet) ≤ limit)
      × All (IsHolder asset exclude fleet) (peers_holding asset exclude limit fleet)
      × IsAscending (peers_holding asset exclude limit fleet)
unfolding peers_holding
peers_holding_lem asset exclude limit fleet = elim (Bool-cases (limit == 0)) [
  | inl empty ↦ rw empty (omega arith, tt, tt)
  | inr cut ↦
      let found = sort_ids (holders asset exclude fleet) in
      rw cut (
        omega (arith, length-take limit found),
        All-take (IsHolder asset exclude fleet) limit found (
            sort_ids-All (IsHolder asset exclude fleet) (holders asset exclude fleet)
              (holders-IsHolder asset exclude fleet)),
        take-IsAscending limit found (sort_ids-IsAscending (holders asset exclude fleet)),
      )
]
