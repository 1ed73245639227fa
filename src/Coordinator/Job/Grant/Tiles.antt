-- ===== src/Coordinator/Job/Grant/Tiles.antt =====
-- Jobs that are cut into tiles: where `JobManager::Grant` (src/coordinator/job.cpp) carves from them.
use native.Mathlib.Nat.{mod-eq_of_lt, add-mod_right, mul-le-mul_right}
use p2p_gpu.Base.{
  ℕ, zero, suc, ◌+◌, ◌-◌, ◌*◌, ◌%◌, ◌≤◌, ◌<◌, ◌≡◌, refl, sym, ap, subst, ◌∙◌, ◌⊎◌, inl, inr, true,
  ◌&&◌, Option, none, some, List, [], ◌∷◌, arith, ltb, Bool-cases, u64_mod, length, get_or, set,
}
use p2p_gpu.Coordinator.Job.{Job}
use p2p_gpu.Coordinator.Job.Grant.Carve.{
  Piece, by_tile, least_granted, tile_start, start_of, carve_piece, booked,
}
use p2p_gpu.Protocol.Ids.{TaskId}
use p2p_gpu.Coordinator.Job.Grant.Keyspace.{IsWithin, carve_piece-IsSized}

-- The loop over the tiles ends with the tile that it began with, or with one that has budget left.
least_granted_lem :
    (gs : List ℕ) (budget i fewest : ℕ) (found : Option ℕ)
    → (least_granted gs budget i fewest found ≡ found)
      ⊎ ((k : ℕ) × (k < length gs)
          × (get_or gs k 0 < budget)
          × (least_granted gs budget i fewest found ≡ some (i + k)))
unfolding least_granted
least_granted_lem [] budget i fewest found = inl refl
least_granted_lem (g ∷ gs) budget i fewest found =
    elim (Bool-cases (ltb g budget && ltb g fewest)) [
      | inl better ↦ elim (least_granted_lem gs budget (suc i) g (some i)) [
        | inl e ↦ inr (0, omega arith, left better, rw better e ∙ ap some (zero_plus i))
        | inr (k, lt, b, e) ↦ inr (suc k, omega arith, b, rw better e ∙ ap some (suc_plus i k))
      ]
      | inr kept ↦ elim (least_granted_lem gs budget (suc i) fewest found) [
        | inl e ↦ inl (rw kept e)
        | inr (k, lt, b, e) ↦ inr (suc k, omega arith, b, rw kept e ∙ ap some (suc_plus i k))
      ]
    ]
  where
    left : (ltb g budget && ltb g fewest) ≡ true → g < budget
    left h = ground arith

    zero_plus : (n : ℕ) → n ≡ n + 0
    zero_plus n = omega arith

    suc_plus : (n k : ℕ) → suc n + k ≡ n + suc k
    suc_plus n k = omega arith

tile_offset : (k b g : ℕ) → g < b → (k * b + g) % b ≡ g
tile_offset zero b g h = ap (λ n. n % b) (none_before b g) ∙ mod-eq_of_lt h
  where
    none_before : (m n : ℕ) → 0 * m + n ≡ n
    none_before m n = omega arith
tile_offset (suc k) b g h =
    ap (λ n. n % b) (one_more k b g) ∙ add-mod_right (k * b + g) b ∙ tile_offset k b g h
  where
    one_more : (a m n : ℕ) → suc a * m + n ≡ a * m + n + m
    one_more a m n = grind arith

tile_fits : (k n b g : ℕ) → k < n → g < b → n * b < u64_mod → (k * b + g) % u64_mod ≡ k * b + g
tile_fits k n b g lt h fits =
    mod-eq_of_lt (below (suc k * b) (n * b) (grind arith) (mul-le-mul_right b lt) fits)
  where
    below : (x y : ℕ) → k * b + g < x → x ≤ y → y < u64_mod → k * b + g < u64_mod
    below x y p q r = omega arith

get_or-set : (gs : List ℕ) (k v : ℕ) → k < length gs → get_or (set gs k v) k 0 ≡ v
get_or-set [] k v h = absurd (omega arith)
get_or-set (g ∷ gs) zero v h = refl
get_or-set (g ∷ gs) (suc k) v h = get_or-set gs k v (omega arith)

-- Where a piece of a job with tiles is carved.
pub record IsInTile (j : Job) (budget : ℕ) (p : Piece) (k : ℕ) : Type 0 where
  pub tile_of : p.tile ≡ some k
  pub exists : k < length j.tile_granted
  pub starts : p.start_unit ≡ k * budget + get_or j.tile_granted k 0
  pub budgeted : get_or j.tile_granted k 0 + p.unit_count ≤ budget

no_tile :
    (budget : ℕ) (gs : List ℕ) (s : ℕ) (t : Option ℕ) → tile_start budget gs none ≡ some (s, t) → ⊥
unfolding tile_start
no_tile budget gs s t e = ground arith

this_tile :
    (budget : ℕ) (gs : List ℕ) (i s : ℕ) (t : Option ℕ)
    → tile_start budget gs (some i) ≡ some (s, t)
    → (t ≡ some i) × (s ≡ (i * budget + get_or gs i 0) % u64_mod)
unfolding tile_start
this_tile budget gs i s t e = ground arith

start_in_tile :
    (j : Job) (budget : ℕ) (p : Piece)
    → by_tile j ≡ some budget
    → length j.tile_granted * budget < u64_mod
    → start_of j (by_tile j) ≡ some (p.start_unit, p.tile)
    → (k : ℕ) × (k < length j.tile_granted)
      × (get_or j.tile_granted k 0 < budget)
      × (p.tile ≡ some k)
      × (p.start_unit ≡ k * budget + get_or j.tile_granted k 0)
start_in_tile j budget p b fits e =
    elim (least_granted_lem j.tile_granted budget 0 (u64_mod - 1) none) [
      | inl q ↦ absurd (no_tile budget j.tile_granted p.start_unit p.tile (chosen none q))
      | inr (k, lt, room, q) ↦
          let (t, s) =
            this_tile budget j.tile_granted k p.start_unit p.tile
              (chosen (some k) (q ∙ ap some (zero_more k))) in
          (
            k,
            lt,
            room,
            t,
            s ∙ tile_fits k (length j.tile_granted) budget (get_or j.tile_granted k 0) lt room fits,
          )
    ]
  where
    zero_more : (n : ℕ) → 0 + n ≡ n
    zero_more n = omega arith

    at_budget :
        (o : Option ℕ)
        → o ≡ some budget
        → tile_start budget j.tile_granted
            (least_granted j.tile_granted budget 0 (u64_mod - 1) none)
          ≡ start_of j o
    at_budget o q = unfold start_of in rw q refl

    chosen :
        (o : Option ℕ)
        → least_granted j.tile_granted budget 0 (u64_mod - 1) none ≡ o
        → tile_start budget j.tile_granted o ≡ some (p.start_unit, p.tile)
    chosen o q = sym (ap (tile_start budget j.tile_granted) q) ∙ at_budget (by_tile j) b ∙ e

-- In a job whose numbers are within 64 bits, as are the budgets of its tiles together, and that has not
-- granted more than there is: a piece that is carved where each tile is a group of the job lies in one
-- tile. It begins where the tile's grants end and does not go over the tile's budget, and afterwards
-- the tile's count has grown by the size of the piece.
pub carve_piece-IsInTile :
    (j : Job) (units budget : ℕ) (p : Piece) (id : TaskId)
    → IsWithin j
    → by_tile j ≡ some budget
    → j.units_per_group ≡ budget
    → length j.tile_granted * budget < u64_mod
    → carve_piece j units ≡ some p
    → (k : ℕ) × IsInTile j budget p k
      × (get_or (booked j p id).tile_granted k 0 ≡ get_or j.tile_granted k 0 + p.unit_count)
unfolding booked
carve_piece-IsInTile j units budget p id w b g fits e =
    let (at, s) = carve_piece-IsSized j units p w e in
    let (k, lt, room, t, start) = start_in_tile j budget p b fits at in
    let within = in_budget k (get_or j.tile_granted k 0) room start s.in_group in
    (
      k,
      record { tile_of = t; exists = lt; starts = start; budgeted = within },
      grown k lt t (omega (arith, within, one_tile lt)),
    )
  where
    in_budget :
        (k had : ℕ)
        → had < budget
        → p.start_unit ≡ k * budget + had
        → (j.units_per_group ≡ 0)
          ⊎ (p.start_unit % j.units_per_group + p.unit_count ≤ j.units_per_group)
        → had + p.unit_count ≤ budget
    in_budget k had room start (inl z) = omega (arith, g)
    in_budget k had room start (inr h) = grind (arith, tile_offset k budget had room, g)

    one_tile : {k n : ℕ} → k < n → budget ≤ n * budget
    one_tile {k = k} {n = n} lt =
        subst (λ x. x ≤ n * budget) (once budget) (mul-le-mul_right budget (at_least lt))
      where
        once : (x : ℕ) → 1 * x ≡ x
        once x = omega arith

        at_least : k < n → 1 ≤ n
        at_least h = omega arith

    grown :
        (k : ℕ)
        → k < length j.tile_granted
        → p.tile ≡ some k
        → get_or j.tile_granted k 0 + p.unit_count < u64_mod
        → get_or (booked j p id).tile_granted k 0 ≡ get_or j.tile_granted k 0 + p.unit_count
    grown k lt t h =
        unfold booked in
        rw t (get_or-set j.tile_granted k ((get_or j.tile_granted k 0 + p.unit_count) % u64_mod) lt)
        ∙ mod-eq_of_lt {m = u64_mod} h
