-- ===== src/Coordinator/Composite/Edges.antt =====
-- One edge of an image, cut into tiles (include/p2pgpu/coordinator/composite.hpp): each position is in
-- exactly one of them.
use native.Mathlib.Nat.{
  mod-eq_of_lt, le-div_iff_mul-le, lt-div-mul-add, div-lt_iff_lt-mul, div-mul-le_self,
  div-eq_of_lt-le,
}
use p2p_gpu.Base.{
  ℕ, suc, ◌+◌, ◌-◌, ◌*◌, ◌/◌, ◌%◌, ◌≤◌, ◌<◌, min, ◌≡◌, sym, ap, subst, inl, inr, arith, ◌==◌,
  ==_iff, Bool-cases, u32_mod,
}
use p2p_gpu.Coordinator.Composite.{tiles_along, clipped}

-- An edge of the image, cut into tiles, without overflow.
pub record IsEdge (image tile : ℕ) : Type 0 where
  pub has_tile : 0 < tile
  pub has_image : 0 < image
  pub fits : image + tile < u32_mod

tiles_along-exact :
    (image tile : ℕ) → IsEdge image tile → tiles_along image tile ≡ (image + tile - 1) / tile
unfolding tiles_along
tiles_along-exact image tile e = elim (Bool-cases (tile == 0)) [
  | inl z ↦ absurd (omega (arith, (==_iff tile 0).0 z, e.has_tile))
  | inr z ↦ rw z (ap (λ n. n / tile) (omega (arith, e.fits, e.has_tile)))
]

-- The part of an edge that a tile takes.
abbrev pub from_of : ℕ → ℕ → ℕ
from_of tile k = (k * tile) % u32_mod

abbrev pub part_of : ℕ → ℕ → ℕ → ℕ
part_of image tile k = clipped tile image (from_of tile k)

pub starts_inside :
    (image tile k : ℕ)
    → IsEdge image tile
    → k < tiles_along image tile
    → (k * tile < image) × (from_of tile k ≡ k * tile)
starts_inside image tile k e h =
    let below =
      (le-div_iff_mul-le {k = tile} {x = suc k} {y = image + tile - 1} e.has_tile).0
        (omega (arith, tiles_along-exact image tile e)) in
    let inside = inner (suc k * tile) below (next k tile) in
    (inside, mod-eq_of_lt {m = u32_mod} (omega (arith, inside, e.fits)))
  where
    next : (a b : ℕ) → suc a * b ≡ a * b + b
    next a b = grind arith

    inner : (n : ℕ) → n ≤ image + tile - 1 → n ≡ k * tile + tile → k * tile < image
    inner n p q = omega (arith, e.has_tile, e.has_image)

pub clipped_lem :
    (tile image at : ℕ)
    → at < image
    → image + tile < u32_mod
    → clipped tile image at ≡ min tile (image - at)
clipped_lem tile image at h f = ap (min tile) (exact image at h (omega arith))
  where
    exact : (i a : ℕ) → a < i → i < u32_mod → (i + (u32_mod - a)) % u32_mod ≡ i - a
    exact i a p q = omega arith

pub part_lem :
    (image tile k : ℕ)
    → IsEdge image tile
    → k < tiles_along image tile
    → (0 < part_of image tile k) × (from_of tile k + part_of image tile k ≤ image)
part_lem image tile k e h =
    let (inside, at) = starts_inside image tile k e h in
    let size = clipped_lem tile image (from_of tile k) (omega (arith, at, inside)) e.fits in
    (omega (arith, size, at, inside, e.has_tile), omega (arith, size, at, inside))

-- The tile of a position on the edge, and no other.
pub position_lem :
    (image tile p : ℕ)
    → IsEdge image tile
    → p < image
    → (p / tile < tiles_along image tile)
      × (from_of tile (p / tile) ≤ p)
      × (p < from_of tile (p / tile) + part_of image tile (p / tile))
position_lem image tile p e h =
    let n = tiles_along-exact image tile e in
    let over = lt-div-mul-add {a = image + tile - 1} {b = tile} e.has_tile in
    let lt =
      (div-lt_iff_lt-mul {k = tile} {x = p} {y = (image + tile - 1) / tile} e.has_tile).1
        (omega (arith, over, e.has_tile)) in
    let k_lt = subst (λ x. p / tile < x) (sym n) lt in
    let (inside, at) = starts_inside image tile (p / tile) e k_lt in
    let size =
      clipped_lem tile image (from_of tile (p / tile)) (omega (arith, at, inside)) e.fits in
    (
      k_lt,
      omega (arith, at, div-mul-le_self p tile),
      omega (arith, at, size, lt-div-mul-add {a = p} {b = tile} e.has_tile),
    )

pub position_unique :
    (image tile p k : ℕ)
    → IsEdge image tile
    → k < tiles_along image tile
    → from_of tile k ≤ p
    → p < from_of tile k + part_of image tile k
    → p / tile ≡ k
position_unique image tile p k e h lo hi =
    let (inside, at) = starts_inside image tile k e h in
    let size = clipped_lem tile image (from_of tile k) (omega (arith, at, inside)) e.fits in
    div-eq_of_lt-le {k = k} tile (omega (arith, at)) (past (next k tile) (omega (arith, at, size)))
  where
    next : (a b : ℕ) → (a + 1) * b ≡ a * b + b
    next a b = grind arith

    past : {n : ℕ} → n ≡ k * tile + tile → p < k * tile + tile → p < n
    past q r = omega arith
