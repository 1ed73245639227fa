-- ===== src/Worker/AssetFetch/Service.antt =====
-- What the coordinator (src/coordinator/session.cpp) sends to a worker that fetches an asset.
use p2p_gpu.Base.{
  ℕ, zero, suc, ◌+◌, ◌-◌, ◌*◌, ◌%◌, ◌≤◌, ◌<◌, min, ◌≡◌, refl, sym, ap, subst, ◌∙◌, ◌⊎◌, inl, inr,
  true, false, ◌||◌, Option, some, List, [], ◌∷◌, map, arith, ltb, leb, ◌==◌, leb→le, by_cases,
  u32_mod, length, range', nat_eq,
}
use p2p_gpu.Protocol.Limits.{chunk_bytes, max_asset_bytes}
use p2p_gpu.Protocol.Invariants.Proofs.{chunk_offset_exact}
use p2p_gpu.Coordinator.Session.AssetServing.{
  max_chunks_per_request, total_chunks, served_from, chunks_from, find_in, served, on_asset_request,
}
use p2p_gpu.Coordinator.Assets.{AssetStore, Hash32, address_of}
use p2p_gpu.Coordinator.Session.{State}
use p2p_gpu.Coordinator.Session.Messages.{Outbound, asset_miss, asset_chunk, Reaction, replying}
use p2p_gpu.Worker.AssetFetch.Reassembly.{chunk_of}

-- The loop gives the asset's own chunks, each with its index.
chunks_from_lem :
    (n i : ℕ) (blob : List ℕ)
    → length blob ≤ max_asset_bytes
    → i + n ≤ total_chunks blob
    → chunks_from n i blob ≡ map (λ j. (j, chunk_of blob j)) (range' i n)
unfolding chunks_from total_chunks chunk_of
chunks_from_lem zero i blob small inside = refl
chunks_from_lem (suc n) i blob small inside =
    let offset = (chunk_offset_exact i (omega (arith, small))).0 in
    let starts : leb (length blob) (i * chunk_bytes) ≡ false = ground (arith, inside) in
    let goal = map (λ j. (j, chunk_of blob j)) (range' i (suc n)) in
    subst (λ o. served_from i blob (chunks_from n (suc i) blob) o ≡ goal) (sym offset)
      (rw starts (
        ap (λ rest. (i, chunk_of blob i) ∷ rest)
          (chunks_from_lem n (suc i) blob small (omega (arith, inside)))))

as_messages :
    {M : Type 0} (f : ℕ → List ℕ → M) (chunk : ℕ → List ℕ) (is : List ℕ)
    → map (λ (i, bytes). f i bytes) (map (λ j. (j, chunk j)) is) ≡ map (λ j. f j (chunk j)) is
as_messages f chunk [] = refl
as_messages f chunk (i ∷ is) = ap (λ rest. f i (chunk i) ∷ rest) (as_messages f chunk is)

-- How many chunks a request for the indices between two bounds gets: at most 64, and only what there is.
abbrev pub answered : ℕ → ℕ → ℕ → ℕ
answered from to total = min (min to total) (from + 64) - from

total_bound : (blob : List ℕ) → length blob ≤ max_asset_bytes → total_chunks blob + 64 < u32_mod
unfolding total_chunks
total_bound blob small = omega arith

module _ {D : Type 0} where
  -- The two answers to a request for an asset that is stored.
  abbrev pub IsAnswered : Hash32 → ℕ → ℕ → List ℕ → State D → State D × Reaction D → Type 0
  IsAnswered h from to blob s r =
      ((min to (total_chunks blob) ≤ from) × (r ≡ (s, replying (asset_miss h ∷ []))))
      ⊎ ((from < min to (total_chunks blob))
          × (r.1
              ≡ replying (
                  map (λ j. asset_chunk h j (total_chunks blob) (chunk_of blob j))
                    (range' from (answered from to (total_chunks blob))))))

  served-IsAnswered :
      (h : Hash32) (from to : ℕ) (blob : List ℕ) (s : State D)
      → length blob ≤ max_asset_bytes
      → IsAnswered h from to blob s (served h from to blob s)
  served-IsAnswered h from to blob s small =
      by_cases (IsAnswered h from to blob s) (leb (min to (total_chunks blob)) from)
        (λ nothing. inl (leb→le (min to (total_chunks blob)) from nothing, refl))
        (λ something. inr (ground (arith, something), ap replying (messages something)))
    where
      message : ℕ → List ℕ → Outbound D
      message i bytes = asset_chunk h i (total_chunks blob) bytes

      unwrapped :
          leb (min to (total_chunks blob)) from ≡ false
          → min (min to (total_chunks blob)) ((from + max_chunks_per_request) % u32_mod) - from
            ≡ answered from to (total_chunks blob)
      unwrapped e = grind (arith, e, total_bound blob small)

      inside :
          leb (min to (total_chunks blob)) from ≡ false
          → from + answered from to (total_chunks blob) ≤ total_chunks blob
      inside e = grind (arith, e)

      messages :
          leb (min to (total_chunks blob)) from ≡ false
          → map
              (λ (i, bytes). message i bytes)
              (chunks_from
                (min (min to (total_chunks blob)) ((from + max_chunks_per_request) % u32_mod)
                  - from)
                from
                blob)
            ≡ map
                (λ j. message j (chunk_of blob j))
                (range' from (answered from to (total_chunks blob)))
      messages e =
          ap (λ n. map (λ (i, bytes). message i bytes) (chunks_from n from blob)) (unwrapped e)
          ∙ ap (map (λ (i, bytes). message i bytes))
              (chunks_from_lem (answered from to (total_chunks blob)) from blob small (inside e))
          ∙ as_messages message (chunk_of blob) (range' from (answered from to (total_chunks blob)))

  -- A request for a range of chunks of an asset that the coordinator stores, of at most 256 MB, is
  -- answered with a miss and no change when nothing of the range is in the asset; and otherwise with
  -- the asset's own chunks at the indices of the range, from its first one on, in order and without a
  -- gap, up to the end of the range or of the asset or to 64 chunks, each with its index and the number
  -- of chunks of the asset.
  pub on_asset_request-IsAnswered :
      (assets : Option AssetStore) (h : Hash32) (from to : ℕ) (blob : List ℕ) (s : State D)
      → find_in assets (address_of h) ≡ some blob
      → length blob ≤ max_asset_bytes
      → IsAnswered h from to blob s (on_asset_request assets (some h) from to s)
  unfolding on_asset_request
  on_asset_request-IsAnswered assets h from to blob s found small = rw found (
      by_cases (IsAnswered h from to blob s)
        (total_chunks blob == 0 || ltb (u32_mod - 1) (total_chunks blob))
        (λ bad. inl (empty bad, refl)) (λ _. served-IsAnswered h from to blob s small))
    where
      empty :
          (total_chunks blob == 0 || ltb (u32_mod - 1) (total_chunks blob)) ≡ true
          → min to (total_chunks blob) ≤ from
      empty e = grind (arith, e, total_bound blob small)
