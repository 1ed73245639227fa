-- ===== src/Coordinator/Job/Grant/Keyspace.antt =====
-- How the carving of `JobManager::Grant` (src/coordinator/job.cpp) divides a job's keyspace.
use mathlib.Core.Option.{some-injective}
use p2p_gpu.Base.{
  ℕ, ◌+◌, ◌-◌, ◌%◌, ◌≤◌, ◌<◌, min, ◌≡◌, refl, sym, subst, ◌≢◌, ◌⊎◌, inl, inr, false, Option, none,
  some, arith, ◌==◌, if◌then◌else◌, Bool-cases, u64_mod,
}
use p2p_gpu.Coordinator.Job.{Job, remaining_units}
use p2p_gpu.Coordinator.Job.Grant.Carve.{
  Piece, by_tile, start_of, piece_size, piece_at, carve_piece, booked,
}
use p2p_gpu.Protocol.Ids.{TaskId}

-- The numbers of the job are within 64 bits, and no more has been granted than there is.
pub record IsWithin (j : Job) : Type 0 where
  pub fits : j.total_units < u64_mod
  pub bounded : j.next_unit ≤ j.total_units

-- A piece of the right size.
pub record IsSized (j : Job) (units : ℕ) (p : Piece) : Type 0 where
  pub nonempty : 0 < p.unit_count
  pub asked : p.unit_count ≤ units
  pub left : j.next_unit + p.unit_count ≤ j.total_units
  pub in_group :
      (j.units_per_group ≡ 0)
      ⊎ (p.start_unit % j.units_per_group + p.unit_count ≤ j.units_per_group)

remaining_lem : (j : Job) → IsWithin j → j.next_unit + remaining_units j ≤ j.total_units
unfolding remaining_units
remaining_lem j w = grind (arith, w.bounded)

capped_lem :
    (g start n m : ℕ)
    → m ≡ (if g == 0 then n else min n (g - start % g))
    → (m ≤ n) × ((g ≡ 0) ⊎ ((m ≡ 0) ⊎ (start % g + m ≤ g)))
capped_lem g start n m e = ground arith

piece_size_lem :
    (j : Job) (units start : ℕ)
    → IsWithin j
    → (piece_size j units start ≤ units)
      × (j.next_unit + piece_size j units start ≤ j.total_units)
      × ((j.units_per_group ≡ 0)
          ⊎ ((piece_size j units start ≡ 0)
              ⊎ (start % j.units_per_group + piece_size j units start ≤ j.units_per_group)))
piece_size_lem j units start w =
    let (small, group) =
      capped_lem j.units_per_group start (min units (remaining_units j)) (piece_size j units start)
        (unfold piece_size in refl) in
    (omega (arith, small), omega (arith, small, remaining_lem j w), group)

abbrev CarvedAt : Job → ℕ → Option (ℕ × Option ℕ) → Piece → Type 0
CarvedAt j units o p =
    (o ≡ some (p.start_unit, p.tile))
    × (p.unit_count ≡ piece_size j units p.start_unit)
    × (0 < p.unit_count)

-- A piece is carved where the job says, with the size that is computed there.
piece_at_lem :
    (j : Job) (units : ℕ) (o : Option (ℕ × Option ℕ)) (p : Piece)
    → piece_at j units o ≡ some p
    → CarvedAt j units o p
unfolding piece_at
piece_at_lem j units none p e = cc
piece_at_lem j units (some (start, tile)) p e = elim (Bool-cases (piece_size j units start == 0)) [
  | inl empty ↦ absurd (nothing (sym (rw empty at e)))
  | inr full ↦
      let q = some-injective (piece start tile) p (rw full at e) in
      subst (CarvedAt j units (some (start, tile))) q
        (refl, refl, positive (piece_size j units start) full)
]
  where
    nothing : some p ≢ none
    nothing q = cc

    piece : ℕ → Option ℕ → Piece
    piece s t = record { start_unit = s; unit_count = piece_size j units s; tile = t }

    positive : (n : ℕ) → (n == 0) ≡ false → 0 < n
    positive n h = ground arith

pub carve_piece-IsSized :
    (j : Job) (units : ℕ) (p : Piece)
    → IsWithin j
    → carve_piece j units ≡ some p
    → (start_of j (by_tile j) ≡ some (p.start_unit, p.tile)) × IsSized j units p
unfolding carve_piece
carve_piece-IsSized j units p w e =
    let (at, size, n) = piece_at_lem j units (start_of j (by_tile j)) p e in
    let (small, within, group) = piece_size_lem j units p.start_unit w in
    (
      at,
      record {
        nonempty = n;
        asked = omega (arith, size, small);
        left = omega (arith, size, within);
        in_group = grouped p.unit_count (piece_size j units p.start_unit) size n group;
      },
    )
  where
    grouped :
        (c m : ℕ)
        → c ≡ m
        → 0 < c
        → (j.units_per_group ≡ 0)
          ⊎ ((m ≡ 0) ⊎ (p.start_unit % j.units_per_group + m ≤ j.units_per_group))
        → (j.units_per_group ≡ 0) ⊎ (p.start_unit % j.units_per_group + c ≤ j.units_per_group)
    grouped c m s n g = grind arith

pub booked-IsWithin :
    (j : Job) (units : ℕ) (p : Piece) (id : TaskId)
    → IsWithin j
    → IsSized j units p
    → IsWithin (booked j p id) × ((booked j p id).next_unit ≡ j.next_unit + p.unit_count)
unfolding booked
booked-IsWithin j units p id w s = (
  record { fits = w.fits; bounded = omega (arith, s.left, w.fits) },
  omega (arith, s.left, w.fits),
)

-- A job without tiles is carved at its cursor.
pub plain_start :
    (j : Job) (s : ℕ) (t : Option ℕ)
    → by_tile j ≡ none
    → start_of j (by_tile j) ≡ some (s, t)
    → (s ≡ j.next_unit) × (t ≡ none)
unfolding start_of
plain_start j s t b e = ground arith
