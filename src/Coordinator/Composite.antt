-- ===== src/Coordinator/Composite.antt =====
-- The image cut into tiles (`TileGrid` of include/p2pgpu/coordinator/composite.hpp and
-- src/coordinator/composite.cpp). All numbers are 32-bit and wrap.
pub mod Edges
pub mod Tiling
mod Examples
use p2p_gpu.Base.{
  ℕ, ◌+◌, ◌-◌, ◌*◌, ◌/◌, ◌%◌, min, ◌||◌, Option, none, some, leb, ◌==◌, if◌then◌else◌, u32_mod,
}
use p2p_gpu.Coordinator.Job.{TileGrid}

-- The number of tiles of a side along an edge, the last one perhaps clipped.
unfoldable pub tiles_along : ℕ → ℕ → ℕ
tiles_along image tile =
    if tile == 0 then 0 else ((image + tile) % u32_mod + (u32_mod - 1)) % u32_mod / tile

unfoldable pub tiles_x : TileGrid → ℕ
unfolding tiles_along
tiles_x g = tiles_along g.image_w g.tile_w

unfoldable pub tiles_y : TileGrid → ℕ
unfolding tiles_along
tiles_y g = tiles_along g.image_h g.tile_h

unfoldable pub tile_count : TileGrid → ℕ
unfolding tiles_x tiles_y
tile_count g = (tiles_x g * tiles_y g) % u32_mod

pub record Tile : Type 0 where
  pub x : ℕ
  pub y : ℕ
  pub w : ℕ
  pub h : ℕ

-- `std::min(tile, image - at)`, the difference in 32 bits.
abbrev pub clipped : ℕ → ℕ → ℕ → ℕ
clipped tile image at = min tile ((image + (u32_mod - at)) % u32_mod)

unfoldable pub tile_at : TileGrid → ℕ → Option Tile
unfolding tile_count
tile_at g index =
    if g.tile_w == 0 || g.tile_h == 0 || leb (tile_count g) index
    then none
    else let x = (index % tiles_x g * g.tile_w) % u32_mod in
      let y = (index / tiles_x g * g.tile_h) % u32_mod in
      some (record {
        x = x;
        y = y;
        w = clipped g.tile_w g.image_w x;
        h = clipped g.tile_h g.image_h y;
      })
