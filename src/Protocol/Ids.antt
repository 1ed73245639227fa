-- ===== src/Protocol/Ids.antt =====
-- Strong identifiers (include/p2pgpu/protocol/ids.hpp).
use p2p_gpu.Base.{ℕ, ◌≡◌, ◌↔◌, Bool, true, ◌&&◌, arith, ◌==◌, Eq}

-- The tags are declared and never instantiated: no value of them exists.
pub data WorkerTag : Type 0 where

pub data TaskTag : Type 0 where

pub data JobTag : Type 0 where

-- Two `std::uint64_t` halves; the tag keeps the instantiations apart.
pub record TaggedId (Tag : Type 0) : Type 0 where
  pub hi : ℕ
  pub lo : ℕ

abbrev pub WorkerId : Type 0
WorkerId = TaggedId WorkerTag

abbrev pub TaskId : Type 0
TaskId = TaggedId TaskTag

abbrev pub JobId : Type 0
JobId = TaggedId JobTag

module _ {Tag : Type 0} where
  -- The default value, which means "absent".
  abbrev pub nil : TaggedId Tag
  nil = record { hi = 0; lo = 0 }

  unfoldable pub is_nil : TaggedId Tag → Bool
  is_nil i = i.hi == 0 && i.lo == 0

  -- `operator==` compares both halves.
  unfoldable pub id_eq : TaggedId Tag → TaggedId Tag → Bool
  id_eq a b = a.hi == b.hi && a.lo == b.lo

  pub id_eq_iff : (a b : TaggedId Tag) → (id_eq a b ≡ true) ↔ (a ≡ b)
  unfolding id_eq
  id_eq_iff a b = ground arith

  instance abbrev pub id_key : Eq (TaggedId Tag)
  id_key = record { beq = id_eq; beq_iff = id_eq_iff }
