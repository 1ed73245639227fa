-- ===== src/Worker/AssetFetch/Buffer.antt =====
-- What a copy into the buffer of a fetch (src/worker-core/task_loop.cpp) leaves at each place.
use p2p_gpu.Base.{
  ℕ, ◌+◌, ◌-◌, ◌≤◌, ◌<◌, ◌≡◌, sym, ap, subst, ◌∙◌, ◌⊎◌, inl, inr, List, ◌++◌, arith, length, get_or,
  take, drop, length-append, length-take, length-drop, nat_eq, get_or-append_left,
  get_or-append_right, get_or-take, get_or-drop,
}
use p2p_gpu.Worker.AssetFetch.Chunks.{write_at}

module _ (offset : ℕ) (src bytes : List ℕ) (fits : offset + length src ≤ length bytes) where
  before : length (take offset bytes) ≡ offset
  before = length-take offset bytes ∙ omega arith

  pub length-write_at : length (write_at offset src bytes) ≡ length bytes
  length-write_at = omega (
    arith,
    before,
    length-append (take offset bytes) (src ++ drop (offset + length src) bytes),
    length-append src (drop (offset + length src) bytes),
    length-drop (offset + length src) bytes,
  )

  pub write_at-below :
      (k : ℕ) → k < offset → get_or (write_at offset src bytes) k 0 ≡ get_or bytes k 0
  write_at-below k h =
      get_or-append_left (take offset bytes) (src ++ drop (offset + length src) bytes) k 0
        (omega (arith, before))
      ∙ get_or-take offset k bytes 0 h

  past :
      (j : ℕ)
      → get_or (write_at offset src bytes) (offset + j) 0
        ≡ get_or (src ++ drop (offset + length src) bytes) j 0
  past j =
      ap (λ n. get_or (write_at offset src bytes) (n + j) 0) (sym before)
      ∙ get_or-append_right (take offset bytes) (src ++ drop (offset + length src) bytes) j 0

  pub write_at-inside :
      (j : ℕ) → j < length src → get_or (write_at offset src bytes) (offset + j) 0 ≡ get_or src j 0
  write_at-inside j h = past j ∙ get_or-append_left src (drop (offset + length src) bytes) j 0 h

  pub write_at-above :
      (j : ℕ)
      → get_or (write_at offset src bytes) (offset + (length src + j)) 0
        ≡ get_or bytes (offset + (length src + j)) 0
  write_at-above j =
      past (length src + j)
      ∙ get_or-append_right src (drop (offset + length src) bytes) j 0
      ∙ get_or-drop (offset + length src) j bytes 0
      ∙ ap (λ n. get_or bytes n 0) (omega arith)

  -- Outside the copied range nothing changes.
  pub write_at-outside :
      (k : ℕ)
      → (k < offset) ⊎ (offset + length src ≤ k)
      → get_or (write_at offset src bytes) k 0 ≡ get_or bytes k 0
  write_at-outside k (inl below) = write_at-below k below
  write_at-outside k (inr above) =
      subst (λ n. get_or (write_at offset src bytes) n 0 ≡ get_or bytes n 0)
        {x = offset + (length src + (k - (offset + length src)))} {y = k} (omega arith)
        (write_at-above (k - (offset + length src)))
