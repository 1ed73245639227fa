-- ===== src/Coordinator/Composite/Examples.antt =====
-- An image of 100 by 70 pixels in tiles of 64 by 64.
use p2p_gpu.Base.{◌≡◌, refl, some, arith}
use p2p_gpu.Coordinator.Job.{TileGrid}
use p2p_gpu.Coordinator.Composite.{tiles_x, tiles_y, Tile, tile_at}
use p2p_gpu.Coordinator.Composite.Tiling.{
  IsImage, Covers, tile_of_pixel, tile_at-Covers, tile_at-disjoint,
}

abbrev small_image : TileGrid
small_image = record { image_w = 100; image_h = 70; tile_w = 64; tile_h = 64 }

small_image-IsImage : IsImage small_image
unfolding tiles_x tiles_y
small_image-IsImage = record {
  across = record { has_tile = omega arith; has_image = omega arith; fits = omega arith };
  down = record { has_tile = omega arith; has_image = omega arith; fits = omega arith };
  countable = omega arith;
}

-- The last tile is clipped on both sides.
abbrev last_tile : Tile
last_tile = record { x = 64; y = 64; w = 36; h = 6 }

tile_at-Covers_example :
    (t : Tile) × (tile_at small_image (tile_of_pixel small_image 70 10) ≡ some t) × Covers t 70 10
tile_at-Covers_example =
    tile_at-Covers small_image 70 10 small_image-IsImage (omega arith) (omega arith)

tile_at-disjoint_example : 3 ≡ tile_of_pixel small_image 70 69
unfolding tile_at
tile_at-disjoint_example =
    tile_at-disjoint small_image 70 69 3 last_tile small_image-IsImage refl
      (omega arith, omega arith, omega arith, omega arith)
