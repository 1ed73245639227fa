-- ===== src/Worker/AssetFetch/Reassembly.antt =====
-- A fetch whose chunks come from an honest source (`HandleAssetChunk`, src/worker-core/task_loop.cpp) builds
-- up the asset itself.
use p2p_gpu.Base.{
  ℕ, ◌+◌, ◌-◌, ◌*◌, ◌/◌, ◌%◌, ◌≤◌, ◌<◌, min, ◌≡◌, refl, sym, ap, subst, ◌∙◌, ◌⊎◌, inl, inr, true,
  false, not, some, List, arith, ltb, ◌==◌, if◌then◌else◌, ==_iff, Bool-cases, u32_mod, length,
  get_or, set, take, drop, length-set, length-take, length-drop, nat_eq, bytes_key, replicate,
  length-replicate, get_or-replicate, get_or-take, get_or-drop, get_or-set_other, marks,
  marks-replicate, marks_le, marks-set,
}
use p2p_gpu.Protocol.Limits.{chunk_bytes, max_asset_bytes}
use p2p_gpu.Protocol.Errors.{has_value}
use p2p_gpu.Protocol.Invariants.{check_asset_chunk}
use p2p_gpu.Worker.AssetFetch.{AssetFetch}
use p2p_gpu.Worker.AssetFetch.Chunks.{
  expected_chunks, sized_by, write_at, wanted, bad, duplicate, stored, stored_at, place_chunk,
}
use p2p_gpu.Protocol.Invariants.Proofs.{check_asset_chunk_iff, chunk_offset_exact}
use p2p_gpu.Worker.AssetFetch.Buffer.{length-write_at, write_at-inside, write_at-outside}

-- The chunk at an index of an asset.
unfoldable pub chunk_of : List ℕ → ℕ → List ℕ
chunk_of blob i = take chunk_bytes (drop (i * chunk_bytes) blob)

abbrev pub IsFetchable : List ℕ → Type 0
IsFetchable blob = (0 < length blob) × (length blob ≤ max_asset_bytes)

-- The buffer agrees with the asset wherever the chunk is marked as there.
pub record IsPart (blob : List ℕ) (f : AssetFetch) : Type 0 where
  pub expected : f.expected_bytes ≡ length blob
  pub chunks : f.total ≡ expected_chunks (length blob)
  pub bytes_long : length f.bytes ≡ length blob
  pub have_long : length f.have ≡ f.total
  pub counted : f.received ≡ marks f.have
  pub right :
      (k : ℕ)
      → k < length blob
      → get_or f.have (k / chunk_bytes) false ≡ true
      → get_or f.bytes k 0 ≡ get_or blob k 0

module _ (blob : List ℕ) (ok_size : IsFetchable blob) where
  length-chunk_of :
      (i : ℕ) → length (chunk_of blob i) ≡ min chunk_bytes (length blob - i * chunk_bytes)
  unfolding chunk_of
  length-chunk_of i =
      length-take chunk_bytes (drop (i * chunk_bytes) blob)
      ∙ ap (min chunk_bytes) (length-drop (i * chunk_bytes) blob)

  get_or-chunk_of :
      (i k : ℕ)
      → k < chunk_bytes
      → get_or (chunk_of blob i) k 0 ≡ get_or blob (i * chunk_bytes + k) 0
  unfolding chunk_of
  get_or-chunk_of i k h =
      get_or-take chunk_bytes k (drop (i * chunk_bytes) blob) 0 h
      ∙ get_or-drop (i * chunk_bytes) k blob 0

  -- The first chunk of a fresh fetch sets up the buffer.
  pub sized_by-fresh :
      (f : AssetFetch)
      → f.total ≡ 0
      → f.received ≡ 0
      → f.expected_bytes ≡ length blob
      → (g : AssetFetch) × (sized_by (expected_chunks (length blob)) f ≡ some g)
        × IsPart blob g
        × (g.received ≡ 0)
        × (g.address ≡ f.address)
  unfolding sized_by
  sized_by-fresh f unsized empty size =
      let unset : (f.total == 0) ≡ true = (==_iff f.total 0).1 unsized in
      let some_bytes : (f.expected_bytes == 0) ≡ false = ground (arith, ok_size.0, size) in
      let small : ltb max_asset_bytes f.expected_bytes ≡ false = ground (arith, ok_size.1, size) in
      let agreed : (expected_chunks (length blob) == expected_chunks f.expected_bytes) ≡ true =
        (==_iff (expected_chunks (length blob)) (expected_chunks f.expected_bytes)).1
          (ap expected_chunks (sym size)) in
      let n = expected_chunks f.expected_bytes in
      (
        record f { total = n; have = replicate n false; bytes = replicate f.expected_bytes 0 },
        rw (unset, some_bytes, small, agreed) refl,
        record {
          expected = size;
          chunks = ap expected_chunks size;
          bytes_long = length-replicate f.expected_bytes 0 ∙ size;
          have_long = length-replicate n false;
          counted = empty ∙ sym (marks-replicate n);
          right = λ k l marked. absurd (unmarked k marked);
        },
        empty,
        refl,
      )
    where
      unmarked :
          (k : ℕ)
          → get_or (replicate (expected_chunks f.expected_bytes) false) (k / chunk_bytes) false
            ≡ true
          → ⊥
      unmarked k marked =
          let not_there =
            get_or-replicate (expected_chunks f.expected_bytes) (k / chunk_bytes) false in
          cc

  -- The later chunks find it set up.
  pub sized_by-known : (total : ℕ) (f : AssetFetch) → IsPart blob f → sized_by total f ≡ some f
  unfolding sized_by
  sized_by-known total f p =
      let is_set : (f.total == 0) ≡ false = ground (arith, p.chunks, ok_size.0) in rw is_set refl

  full_or_last :
      (i : ℕ)
      → i < expected_chunks (length blob)
      → (length (chunk_of blob i) ≡ chunk_bytes) ⊎ (i + 1 ≡ expected_chunks (length blob))
  full_or_last i h = ground (arith, length-chunk_of i)

  check_passes :
      (i : ℕ)
      → i < expected_chunks (length blob)
      → has_value (
          check_asset_chunk i
            (expected_chunks (length blob))
            (expected_chunks (length blob))
            (length (chunk_of blob i)))
        ≡ true
  check_passes i h =
      let n = length blob in
      let len = length-chunk_of i in
      rw
        ((check_asset_chunk_iff i (expected_chunks n) (expected_chunks n) (length (chunk_of blob i))
            (omega (arith, ok_size.1)) (omega (arith, ok_size.1))).1
          (refl, h, omega (arith, len), full_or_last i h))
        refl

  fits_buffer :
      (i : ℕ) (f : AssetFetch)
      → IsPart blob f
      → i < expected_chunks (length blob)
      → i * chunk_bytes + length (chunk_of blob i) ≤ length f.bytes
  fits_buffer i f p h = omega (arith, length-chunk_of i, p.bytes_long)

  length-wanted :
      (i : ℕ) (f : AssetFetch)
      → IsPart blob f
      → i < expected_chunks (length blob)
      → length (chunk_of blob i) ≡ wanted i f
  length-wanted i f p h = ground (arith, length-chunk_of i, p.expected, p.chunks)

  -- The copy makes its own chunk right and leaves the others.
  right_after :
      (i : ℕ) (f : AssetFetch)
      → IsPart blob f
      → i * chunk_bytes + length (chunk_of blob i) ≤ length f.bytes
      → (k : ℕ) → k < length blob
      → get_or (set f.have i true) (k / chunk_bytes) false ≡ true
      → ((i == k / chunk_bytes) ≡ true) ⊎ ((i == k / chunk_bytes) ≡ false)
      → get_or (write_at (i * chunk_bytes) (chunk_of blob i) f.bytes) k 0 ≡ get_or blob k 0
  right_after i f p fits k l marked (inl here) =
      let e = (==_iff i (k / chunk_bytes)).0 here in
      let j = k - i * chunk_bytes in
      subst
        (λ n. get_or (write_at (i * chunk_bytes) (chunk_of blob i) f.bytes) n 0 ≡ get_or blob n 0)
        {x = i * chunk_bytes + j} {y = k} (omega (arith, e))
        (write_at-inside (i * chunk_bytes) (chunk_of blob i) f.bytes fits j
            (omega (arith, e, length-chunk_of i))
          ∙ get_or-chunk_of i j (omega (arith, e)))
  right_after i f p fits k l marked (inr other) =
      write_at-outside (i * chunk_bytes) (chunk_of blob i) f.bytes fits k
        (apart (ground (arith, ==_iff i (k / chunk_bytes))))
      ∙ p.right k l (sym (get_or-set_other f.have i (k / chunk_bytes) true false other) ∙ marked)
    where
      apart :
          (i < k / chunk_bytes) ⊎ (k / chunk_bytes < i)
          → (k < i * chunk_bytes) ⊎ (i * chunk_bytes + length (chunk_of blob i) ≤ k)
      apart (inl less) = inr (omega (arith, length-chunk_of i))
      apart (inr more) = inl (omega arith)

  -- An honest chunk passes the checks, so that only its mark decides.
  placed :
      (now i : ℕ) (f : AssetFetch)
      → IsPart blob f
      → i < f.total
      → place_chunk now i f.total (chunk_of blob i) f ≡ (
          if get_or f.have i false
          then duplicate
          else if not (length (chunk_of blob i) == wanted i f)
          then bad
          else stored_at now i (chunk_of blob i) (i * chunk_bytes) f)
  unfolding place_chunk
  placed now i f p h =
      let src = chunk_of blob i in
      let inside : i < expected_chunks (length blob) = omega (arith, p.chunks) in
      let fits = fits_buffer i f p inside in
      let room : ltb (length f.bytes) (i * chunk_bytes + length src) ≡ false =
        ground (arith, fits) in
      let passes : has_value (check_asset_chunk i f.total f.total (length src)) ≡ true =
        subst (λ n. has_value (check_asset_chunk i n n (length src)) ≡ true) (sym p.chunks)
          (check_passes i inside) in
      let offset = (chunk_offset_exact i (omega (arith, ok_size.1))).0 in
      rw (passes, offset, room) refl

  -- An honest chunk that is there already changes nothing.
  pub place_chunk-known :
      (now i : ℕ) (f : AssetFetch)
      → IsPart blob f
      → i < f.total
      → get_or f.have i false ≡ true
      → place_chunk now i f.total (chunk_of blob i) f ≡ duplicate
  place_chunk-known now i f p h there = placed now i f p h ∙ rw there refl

  -- An honest chunk that is not there yet is stored, and the fetch is a part of the asset again.
  pub place_chunk-new :
      (now i : ℕ) (f : AssetFetch)
      → IsPart blob f
      → i < f.total
      → get_or f.have i false ≡ false
      → (g : AssetFetch) × (place_chunk now i f.total (chunk_of blob i) f ≡ stored g)
        × IsPart blob g
        × (g.have ≡ set f.have i true)
        × (g.address ≡ f.address)
  place_chunk-new now i f p h missing =
      let src = chunk_of blob i in
      let inside : i < expected_chunks (length blob) = omega (arith, p.chunks) in
      let fits = fits_buffer i f p inside in
      let right_length : (length src == wanted i f) ≡ true =
        (==_iff (length src) (wanted i f)).1 (length-wanted i f p inside) in
      (
        record f {
          bytes = write_at (i * chunk_bytes) src f.bytes;
          have = set f.have i true;
          received = (f.received + 1) % u32_mod;
          last_progress = now;
        },
        placed now i f p h ∙ rw (missing, right_length) refl,
        record {
          expected = p.expected;
          chunks = p.chunks;
          bytes_long = length-write_at (i * chunk_bytes) src f.bytes fits ∙ p.bytes_long;
          have_long = length-set f.have i true ∙ p.have_long;
          counted = omega (
            arith,
            p.counted,
            marks-set f.have i (omega (arith, p.have_long)) missing,
            marks_le (set f.have i true),
            length-set f.have i true,
            p.have_long,
            p.chunks,
            ok_size.1,
          );
          right =
              λ k l marked. right_after i f p fits k l marked (Bool-cases (i == k / chunk_bytes));
        },
        refl,
        refl,
      )
