-- ===== src/Coordinator/SpotCheck/Pool.antt =====
-- What the pool of known ranges (src/coordinator/spot_check.cpp) keeps true.
use p2p_gpu.Base.{
  ℕ, ◌≤◌, ◌<◌, ◌≡◌, refl, inl, inr, false, ◌||◌, List, [], ◌∷◌, ◌++◌, arith, leb, ◌==◌, ==_iff,
  Bool-cases, length, any_of, All, length-append, All-append,
}
use p2p_gpu.Coordinator.SpotCheck.{max_known, Known, SpotCheckPool, is_range, drop_oldest, remember}

-- No range is known twice.
abbrev pub Unique : List Known → Type 0
Unique [] = Unit
Unique (k ∷ ks) = (any_of (is_range k.start_unit k.unit_count) ks ≡ false) × Unique ks

pub record IsSoundPool (p : SpotCheckPool) : Type 0 where
  pub small : length p.known ≤ max_known
  pub unique : Unique p.known
  pub real : All (λ k. 0 < k.unit_count) p.known

any_of-snoc :
    (k n : Known) (ks : List Known)
    → any_of (is_range k.start_unit k.unit_count) ks ≡ false
    → is_range k.start_unit k.unit_count n ≡ false
    → any_of (is_range k.start_unit k.unit_count) (ks ++ n ∷ []) ≡ false
any_of-snoc k n [] h q = ground arith
any_of-snoc k n (x ∷ ks) h q = ground (arith, any_of-snoc k n ks)

Unique-snoc :
    (ks : List Known) (n : Known)
    → Unique ks
    → any_of (is_range n.start_unit n.unit_count) ks ≡ false
    → Unique (ks ++ n ∷ [])
Unique-snoc [] n u h = (refl, tt)
Unique-snoc (k ∷ ks) n u h = (
  any_of-snoc k n ks u.0 (
      ground (
        arith,
        ==_iff k.start_unit n.start_unit,
        ==_iff n.start_unit k.start_unit,
        ==_iff k.unit_count n.unit_count,
        ==_iff n.unit_count k.unit_count,
      )),
  Unique-snoc ks n u.1 (ground arith),
)

drop_oldest_lem :
    (s c : ℕ) (ks : List Known)
    → length ks ≤ max_known
    → Unique ks
    → All (λ k. 0 < k.unit_count) ks
    → any_of (is_range s c) ks ≡ false
    → (length (drop_oldest ks) < max_known)
      × Unique (drop_oldest ks)
      × All (λ k. 0 < k.unit_count) (drop_oldest ks)
      × (any_of (is_range s c) (drop_oldest ks) ≡ false)
drop_oldest_lem s c [] l u r h = (omega arith, tt, tt, refl)
drop_oldest_lem s c (k ∷ ks) l u r h = elim (Bool-cases (leb max_known (length (k ∷ ks)))) [
  | inl full ↦ rw full (omega arith, u.1, r.1, ground arith)
  | inr room ↦ rw room (ground arith, u, r, h)
]

-- Remembering a range keeps the pool sound: at most 256 ranges, none of them empty and none known
-- twice.
pub remember-IsSoundPool :
    (start count checksum : ℕ) (p : SpotCheckPool)
    → IsSoundPool p
    → IsSoundPool (remember start count checksum p)
unfolding remember
remember-IsSoundPool start count checksum p s =
    elim (Bool-cases (count == 0 || any_of (is_range start count) p.known)) [
      | inl skip ↦ rw skip s
      | inr new ↦
          let (l, u, r, h) =
            drop_oldest_lem start count p.known s.small s.unique s.real (ground arith) in
          rw new (record {
            small = omega (arith, length-append (drop_oldest p.known) (entry ∷ []));
            unique = Unique-snoc (drop_oldest p.known) entry u h;
            real =
                All-append (λ k. 0 < k.unit_count) (drop_oldest p.known) (entry ∷ []) r
                  (positive new, tt);
          })
    ]
  where
    entry : Known
    entry = record { start_unit = start; unit_count = count; checksum = checksum }

    positive : (count == 0 || any_of (is_range start count) p.known) ≡ false → 0 < count
    positive e = ground (arith, ==_iff count 0)
