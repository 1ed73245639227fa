-- ===== src/Coordinator/Composite/Tiling.antt =====
-- The tiles of an image lie within it, cover it, and do not overlap.
use mathlib.Core.Option.{some-injective}
use native.Mathlib.Nat.{
  mod-eq_of_lt, mod-lt, mul-le-mul_right, mul_comm, div-add-mod', div-lt_iff_lt-mul,
  div-eq_of_lt-le,
}
use p2p_gpu.Base.{
  ℕ, zero, suc, ◌+◌, ◌*◌, ◌/◌, ◌%◌, ◌≤◌, ◌<◌, ◌≡◌, sym, ap, subst, ◌∙◌, ◌≢◌, ◌⊎◌, inl, inr, Bool,
  true, false, ◌||◌, Option, none, some, arith, leb, ◌==◌, if◌then◌else◌, ==_iff, leb→le,
  Bool-cases, u32_mod,
}
use p2p_gpu.Coordinator.Composite.{tiles_x, tiles_y, tile_count, Tile, tile_at}
use p2p_gpu.Coordinator.Job.{TileGrid}
use p2p_gpu.Coordinator.Composite.Edges.{
  IsEdge, from_of, part_of, part_lem, position_lem, position_unique,
}

-- An image with tiles whose number fits 32 bits.
pub record IsImage (g : TileGrid) : Type 0 where
  pub across : IsEdge g.image_w g.tile_w
  pub down : IsEdge g.image_h g.tile_h
  pub countable : tiles_x g * tiles_y g < u32_mod

abbrev pub Covers : Tile → ℕ → ℕ → Type 0
Covers t px py = (t.x ≤ px) × (px < t.x + t.w) × (t.y ≤ py) × (py < t.y + t.h)

-- The tile in a column and a row.
abbrev tile_in : TileGrid → ℕ → ℕ → Tile
tile_in g column row = record {
  x = from_of g.tile_w column;
  y = from_of g.tile_h row;
  w = part_of g.image_w g.tile_w column;
  h = part_of g.image_h g.tile_h row;
}

tile_at_cases :
    (g : TileGrid) (i : ℕ)
    → IsImage g
    → ((i < tiles_x g * tiles_y g)
        × (tile_at g i ≡ some (tile_in g (i % tiles_x g) (i / tiles_x g))))
      ⊎ ((tiles_x g * tiles_y g ≤ i) × (tile_at g i ≡ none))
unfolding tile_at tile_count
tile_at_cases g i s = elim (Bool-cases (leb ((tiles_x g * tiles_y g) % u32_mod) i)) [
  | inl out ↦ inr (
    over (tiles_x g * tiles_y g) s.countable out,
    refuses (g.tile_w == 0) (g.tile_h == 0) (leb ((tiles_x g * tiles_y g) % u32_mod) i) _ out,
  )
  | inr within ↦ inl (
    under (tiles_x g * tiles_y g) s.countable within,
    picks (g.tile_w == 0) (g.tile_h == 0) (leb ((tiles_x g * tiles_y g) % u32_mod) i) _
        (nonzero g.tile_w s.across.has_tile) (nonzero g.tile_h s.down.has_tile) within,
  )
]
  where
    refuses : (a b c : Bool) (o : Option Tile) → c ≡ true → (if a || b || c then none else o) ≡ none
    refuses a b c o h = ground arith

    picks :
        (a b c : Bool) (o : Option Tile)
        → a ≡ false
        → b ≡ false
        → c ≡ false
        → (if a || b || c then none else o) ≡ o
    picks a b c o p q r = ground arith

    nonzero : (n : ℕ) → 0 < n → (n == 0) ≡ false
    nonzero n h = ground (arith, ==_iff n 0)

    over : (n : ℕ) → n < u32_mod → leb (n % u32_mod) i ≡ true → n ≤ i
    over n h q = subst (λ x. x ≤ i) (mod-eq_of_lt {m = u32_mod} h) (leb→le (n % u32_mod) i q)

    under : (n : ℕ) → n < u32_mod → leb (n % u32_mod) i ≡ false → i < n
    under n h q = subst (λ x. i < x) (mod-eq_of_lt {m = u32_mod} h) (ground arith)

-- The column and the row of an index are within the grid.
grid_lem :
    (g : TileGrid) (i : ℕ)
    → i < tiles_x g * tiles_y g
    → (i % tiles_x g < tiles_x g) × (i / tiles_x g < tiles_y g)
grid_lem g i h = (
  mod-lt i (some_columns (tiles_x g) (tiles_y g) h),
  (div-lt_iff_lt-mul {k = tiles_x g} {x = i} {y = tiles_y g}
        (some_columns (tiles_x g) (tiles_y g) h)).1
      (grind arith),
)
  where
    some_columns : (a b : ℕ) → i < a * b → 0 < a
    some_columns zero b q = absurd (omega arith)
    some_columns (suc a) b q = omega arith

-- Every tile of an image whose numbers fit 32 bits has pixels, and all of them are in the image.
tile_at-inside :
    (g : TileGrid) (i : ℕ) (t : Tile)
    → IsImage g
    → tile_at g i ≡ some t
    → (0 < t.w) × (0 < t.h) × (t.x + t.w ≤ g.image_w) × (t.y + t.h ≤ g.image_h)
tile_at-inside g i t s e = elim (tile_at_cases g i s) [
  | inr (out, q) ↦ absurd (nothing (sym q ∙ e))
  | inl (h, q) ↦
      let (c, r) = grid_lem g i h in
      let (wide, right) =
        part_lem g.image_w g.tile_w (i % tiles_x g) s.across (unfold tiles_x in c) in
      let (tall, low) = part_lem g.image_h g.tile_h (i / tiles_x g) s.down (unfold tiles_y in r) in
      subst Inside (some-injective (tile_in g (i % tiles_x g) (i / tiles_x g)) t (sym q ∙ e))
        (wide, tall, right, low)
]
  where
    nothing : none ≢ some t
    nothing q = cc

    Inside : Tile → Type 0
    Inside t = (0 < t.w) × (0 < t.h) × (t.x + t.w ≤ g.image_w) × (t.y + t.h ≤ g.image_h)

-- The index of a pixel's tile.
abbrev pub tile_of_pixel : TileGrid → ℕ → ℕ → ℕ
tile_of_pixel g px py = py / g.tile_h * tiles_x g + px / g.tile_w

index_lem :
    (n m row column : ℕ)
    → column < n
    → row < m
    → (row * n + column < n * m)
      × ((row * n + column) % n ≡ column)
      × ((row * n + column) / n ≡ row)
index_lem n m row column hc hr =
    let div =
      div-eq_of_lt-le {k = row} n {m = row * n + column} (omega arith) (upto (more row n)) in
    (
      room (suc row * n) (next row n) (mul-le-mul_right n hr) (mul_comm m n),
      rest ((row * n + column) / n) div (div-add-mod' (row * n + column) n),
      div,
    )
  where
    next : (a b : ℕ) → suc a * b ≡ a * b + b
    next a b = grind arith

    more : (a b : ℕ) → (a + 1) * b ≡ a * b + b
    more a b = grind arith

    upto : {x : ℕ} → x ≡ row * n + n → row * n + column < x
    upto q = omega (arith, hc)

    room : (x : ℕ) → x ≡ row * n + n → x ≤ m * n → m * n ≡ n * m → row * n + column < n * m
    room x q r c = omega (arith, hc)

    rest :
        (d : ℕ)
        → d ≡ row
        → d * n + (row * n + column) % n ≡ row * n + column
        → (row * n + column) % n ≡ column
    rest d q r = grind arith

-- Where a pixel is on the grid.
placed :
    (g : TileGrid) (px py i : ℕ)
    → IsImage g
    → i < tiles_x g * tiles_y g
    → Covers (tile_in g (i % tiles_x g) (i / tiles_x g)) px py
    → i ≡ tile_of_pixel g px py
placed g px py i s h c =
    let (column, row) = grid_lem g i h in
    let (left, right, top, bottom) = c in
    let x =
      position_unique g.image_w g.tile_w px (i % tiles_x g) s.across (unfold tiles_x in column) left
        right in
    let y =
      position_unique g.image_h g.tile_h py (i / tiles_x g) s.down (unfold tiles_y in row) top
        bottom in
    sym (div-add-mod' i (tiles_x g))
    ∙ ap (λ k. k * tiles_x g + i % tiles_x g) (sym y)
    ∙ ap (λ k. py / g.tile_h * tiles_x g + k) (sym x)

-- Every pixel of an image whose numbers fit 32 bits is in a tile of the image.
pub tile_at-Covers :
    (g : TileGrid) (px py : ℕ)
    → IsImage g
    → px < g.image_w
    → py < g.image_h
    → (t : Tile) × (tile_at g (tile_of_pixel g px py) ≡ some t) × Covers t px py
tile_at-Covers g px py s hx hy =
    let (c, left, right) = position_lem g.image_w g.tile_w px s.across hx in
    let (r, top, bottom) = position_lem g.image_h g.tile_h py s.down hy in
    let (within, column, row) =
      index_lem (tiles_x g) (tiles_y g) (py / g.tile_h) (px / g.tile_w) (unfold tiles_x in c)
        (unfold tiles_y in r) in
    elim (tile_at_cases g (tile_of_pixel g px py) s) [
      | inr (out, q) ↦ absurd (omega (arith, within, out))
      | inl (h, q) ↦ (
        tile_in g (px / g.tile_w) (py / g.tile_h),
        q
            ∙ ap (λ k. some (tile_in g k (tile_of_pixel g px py / tiles_x g))) column
            ∙ ap (λ k. some (tile_in g (px / g.tile_w) k)) row,
        (left, right, top, bottom),
      )
    ]

-- No pixel is in two tiles of an image whose numbers fit 32 bits: an index whose tile has the pixel is
-- the one that its row and column give.
pub tile_at-disjoint :
    (g : TileGrid) (px py i : ℕ) (t : Tile)
    → IsImage g
    → tile_at g i ≡ some t
    → Covers t px py
    → i ≡ tile_of_pixel g px py
tile_at-disjoint g px py i t s e c = elim (tile_at_cases g i s) [
  | inr (out, q) ↦ absurd (nothing (sym q ∙ e))
  | inl (h, q) ↦ placed g px py i s h (
      subst (λ u. Covers u px py)
        (some-injective t (tile_in g (i % tiles_x g) (i / tiles_x g)) (sym e ∙ q)) c)
]
  where
    nothing : none ≢ some t
    nothing q = cc
