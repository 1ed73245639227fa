-- ===== src/Coordinator/Compositor.antt =====
-- The image that accepted tiles make up (the class `Compositor` of src/coordinator/composite.cpp and
-- include/p2pgpu/coordinator/composite.hpp). A pixel is four 32-bit floats, `float_of` reads one from its
-- bit pattern. The rendering of the image to bytes is left out.
use p2p_gpu.Base.{
  nat_eq, ℕ, zero, suc, ◌+◌, ◌*◌, ◌%◌, Bool, true, false, not, ◌&&◌, Option, none, some, List, [],
  ◌∷◌, ◌==◌, if◌then◌else◌, u32_mod, length, get_or, drop, lookup, insert,
}
use p2p_gpu.Coordinator.Job.{TileGrid}
use p2p_gpu.Coordinator.Doubles.{DoubleOps}
use p2p_gpu.Coordinator.Composite.{tile_count, Tile, tile_at}

pub record TileData (D : Type 0) : Type 0 where
  pub rgb : List D
  pub samples : D

pub record Compositor (D : Type 0) : Type 0 where
  pub grid : TileGrid
  pub tiles : List (ℕ × TileData D)

abbrev pub new_compositor : {D : Type 0} → TileGrid → Compositor D
new_compositor grid = record { grid = grid; tiles = [] }

-- `Tile::pixels`, in 32 bits.
abbrev pub pixels : Tile → ℕ
pixels t = (t.w * t.h) % u32_mod

-- `kStride`.
abbrev pub stride : ℕ
stride = 16

abbrev pub word_at : List ℕ → ℕ → ℕ
word_at bytes i =
    get_or bytes i 0
    + 256 * (get_or bytes (i + 1) 0 + 256 * (get_or bytes (i + 2) 0 + 256 * get_or bytes (i + 3) 0))

module _ {D : Type 0} (f : DoubleOps D) (float_of : ℕ → D) where
  -- `std::isfinite(x) ? x : 0.0F`.
  abbrev pub finite_or_zero : D → D
  finite_or_zero x = if f.is_finite x then x else f.zero_d

  -- The colours of n pixels from a payload.
  unfoldable pub colours : ℕ → List ℕ → List D
  colours zero payload = []
  colours (suc n) payload =
      finite_or_zero (float_of (word_at payload 0))
      ∷ finite_or_zero (float_of (word_at payload 4))
      ∷ finite_or_zero (float_of (word_at payload 8))
      ∷ colours n (drop stride payload)

  -- The sample count, which is that of the first pixel.
  unfoldable pub samples_of : ℕ → List ℕ → D
  samples_of zero payload = f.zero_d
  samples_of (suc n) payload =
      let x = float_of (word_at payload 12) in
      if f.is_finite x && f.is_positive x then x else f.zero_d

  abbrev pub accept_at : Option Tile → ℕ → List ℕ → Compositor D → Compositor D × Bool
  unfolding colours samples_of
  accept_at none index payload c = (c, false)
  accept_at (some tile) index payload c =
      if not (length payload == pixels tile * stride) then (c, false) else (
        record c {
          tiles =
              insert index
                (record {
                  rgb = colours (pixels tile) payload;
                  samples = samples_of (pixels tile) payload;
                })
                c.tiles;
        },
        true,
      )

  unfoldable pub accept_tile : ℕ → List ℕ → Compositor D → Compositor D × Bool
  unfolding tile_at
  accept_tile index payload c = accept_at (tile_at c.grid index) index payload c

  abbrev pub samples_or_zero : Option (TileData D) → D
  samples_or_zero none = f.zero_d
  samples_or_zero (some t) = t.samples

  unfoldable pub tile_samples : ℕ → Compositor D → D
  tile_samples index c = samples_or_zero (lookup index c.tiles)

  -- The loop of `MinSamples` over n tiles from i on; `none` stands for the infinity that it starts at.
  abbrev pub lower : Option D → D → D
  lower none s = s
  lower (some lowest) s = f.min_d lowest s

  unfoldable pub min_over : ℕ → ℕ → Option D → Compositor D → Option D
  unfolding tile_samples
  min_over zero i lowest c = lowest
  min_over (suc n) i lowest c = min_over n (suc i) (some (lower lowest (tile_samples i c))) c

  abbrev pub finite_lowest : Option D → D
  finite_lowest none = f.zero_d
  finite_lowest (some lowest) = finite_or_zero lowest

  unfoldable pub min_samples : Compositor D → D
  unfolding min_over tile_count
  min_samples c =
      if tile_count c.grid == 0
      then f.zero_d
      else finite_lowest (min_over (tile_count c.grid) 0 none c)

  unfoldable pub max_over : List (ℕ × TileData D) → D → D
  max_over [] highest = highest
  max_over ((index, t) ∷ tiles) highest = max_over tiles (f.max_d highest t.samples)

  unfoldable pub max_samples : Compositor D → D
  unfolding max_over
  max_samples c = max_over c.tiles f.zero_d

  -- `s < best_samples`, where the best is infinite at first; a sample count is a finite number.
  abbrev pub is_less : D → Option D → Bool
  is_less s none = true
  is_less s (some best) = not (f.at_least s best)

  unfoldable pub least_over : ℕ → ℕ → ℕ → Option D → Compositor D → ℕ
  unfolding tile_samples
  least_over zero i best best_samples c = best
  least_over (suc n) i best best_samples c =
      let s = tile_samples i c in
      least_over n (suc i) (if is_less s best_samples then i else best)
        (if is_less s best_samples then some s else best_samples) c

  unfoldable pub least_sampled_tile : Compositor D → ℕ
  unfolding least_over tile_count
  least_sampled_tile c = least_over (tile_count c.grid) 0 0 none c
