-- ===== src/Coordinator/SpotCheck.antt =====
-- The pool of ranges with known answers (src/coordinator/spot_check.cpp,
-- include/p2pgpu/coordinator/spot_check.hpp). The rates and the scores are doubles; the two
-- comparisons that `Maybe` makes of them, whether the score is proven and whether the roll reaches
-- the rate, are arguments.
pub mod Pool
mod Examples
use p2p_gpu.Base.{
  ℕ, ◌%◌, Bool, ◌&&◌, ◌||◌, Option, none, some, List, [], ◌∷◌, ◌++◌, leb, ◌==◌, if◌then◌else◌,
  length, get_elem?, erase_at, any_of, lookup, insert, remove,
}
use p2p_gpu.Protocol.Ids.{TaskId, id_key}

-- `kMaxKnown`.
abbrev pub max_known : ℕ
max_known = 256

pub record Known : Type 0 where
  pub start_unit : ℕ
  pub unit_count : ℕ
  pub checksum : ℕ

pub record SpotCheckPool : Type 0 where
  pub known : List Known
  pub issued : List (TaskId × ℕ)

abbrev pub empty_pool : SpotCheckPool
empty_pool = record { known = []; issued = [] }

abbrev pub is_range : ℕ → ℕ → Known → Bool
is_range start count k = k.start_unit == start && k.unit_count == count

-- `known_.erase(known_.begin())`.
abbrev pub drop_oldest : List Known → List Known
drop_oldest known = if leb max_known (length known) then erase_at known 0 else known

unfoldable pub remember : ℕ → ℕ → ℕ → SpotCheckPool → SpotCheckPool
remember start count checksum p =
    if count == 0 || any_of (is_range start count) p.known then p else record p {
      known =
          drop_oldest p.known
          ++ record { start_unit = start; unit_count = count; checksum = checksum } ∷ [];
    }

pub record Pick : Type 0 where
  pub start_unit : ℕ
  pub unit_count : ℕ
  pub expected_checksum : ℕ

abbrev pub pick_of : Option Known → Option Pick
pick_of none = none
pick_of (some k) = some (record {
  start_unit = k.start_unit;
  unit_count = k.unit_count;
  expected_checksum = k.checksum;
})

-- `reaches` tells whether the roll is at least the rate of a proven or of an unproven worker.
unfoldable pub maybe : Bool → (Bool → Bool) → ℕ → SpotCheckPool → Option Pick
maybe is_proven reaches index_roll p = elim p.known [
  | [] ↦ none
  | first ∷ rest ↦
      if reaches is_proven then none else pick_of (get_elem? p.known (index_roll % length p.known))
]

unfoldable pub mark_issued : TaskId → ℕ → SpotCheckPool → SpotCheckPool
mark_issued task expected p = record p { issued = insert task expected p.issued }

unfoldable pub expected_for : TaskId → SpotCheckPool → Option ℕ
expected_for task p = lookup task p.issued

unfoldable pub forget : TaskId → SpotCheckPool → SpotCheckPool
forget task p = record p { issued = remove task p.issued }
