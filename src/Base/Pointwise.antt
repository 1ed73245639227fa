-- ===== src/Base/Pointwise.antt =====
-- Lists read at an index: what each operation leaves at each place, and equality from it.
use Prim.Native.Nat.{ℕ, zero, suc, ◌+◌, ◌≤◌, ◌<◌}
use mathlib.Core.Path.{◌≡◌, refl, ap, ◌∙◌}
use mathlib.Core.Bool.{Bool, true, false}
use mathlib.Core.List.{List, [], ◌∷◌, ◌++◌}
use native.Mathlib.Omega.{arith}
use p2p_gpu.Base.Tests.{◌==◌}
use p2p_gpu.Base.Lists.{length, get_or, set, take, drop}

module _ {ℓ} {A : Type ℓ} where
  abbrev pub replicate : ℕ → A → List A
  replicate zero a = []
  replicate (suc n) a = a ∷ replicate n a

  pub length-replicate : (n : ℕ) (a : A) → length (replicate n a) ≡ n
  length-replicate zero a = refl
  length-replicate (suc n) a = ap suc (length-replicate n a)

  pub get_or-replicate : (n i : ℕ) (a : A) → get_or (replicate n a) i a ≡ a
  get_or-replicate zero i a = refl
  get_or-replicate (suc n) zero a = refl
  get_or-replicate (suc n) (suc i) a = get_or-replicate n i a

  pub get_or-append_left :
      (xs ys : List A) (i : ℕ) (d : A) → i < length xs → get_or (xs ++ ys) i d ≡ get_or xs i d
  get_or-append_left [] ys i d h = absurd (omega arith)
  get_or-append_left (x ∷ xs) ys zero d h = refl
  get_or-append_left (x ∷ xs) ys (suc i) d h = get_or-append_left xs ys i d (omega arith)

  pub get_or-append_right :
      (xs ys : List A) (i : ℕ) (d : A) → get_or (xs ++ ys) (length xs + i) d ≡ get_or ys i d
  get_or-append_right [] ys i d = ap (λ j. get_or ys j d) (omega arith)
  get_or-append_right (x ∷ xs) ys i d =
      ap (λ j. get_or (x ∷ (xs ++ ys)) j d) {x = suc (length xs) + i} {y = suc (length xs + i)}
        (omega arith)
      ∙ get_or-append_right xs ys i d

  pub get_or-take : (n i : ℕ) (xs : List A) (d : A) → i < n → get_or (take n xs) i d ≡ get_or xs i d
  get_or-take zero i xs d h = absurd (omega arith)
  get_or-take (suc n) i [] d h = refl
  get_or-take (suc n) zero (x ∷ xs) d h = refl
  get_or-take (suc n) (suc i) (x ∷ xs) d h = get_or-take n i xs d (omega arith)

  pub get_or-drop : (n i : ℕ) (xs : List A) (d : A) → get_or (drop n xs) i d ≡ get_or xs (n + i) d
  get_or-drop zero i xs d = ap (λ j. get_or xs j d) (omega arith)
  get_or-drop (suc n) i [] d = refl
  get_or-drop (suc n) i (x ∷ xs) d =
      get_or-drop n i xs d
      ∙ ap (λ j. get_or (x ∷ xs) j d) {x = suc (n + i)} {y = suc n + i} (omega arith)

  pub get_or-set_self :
      (xs : List A) (i : ℕ) (v d : A) → i < length xs → get_or (set xs i v) i d ≡ v
  get_or-set_self [] i v d h = absurd (omega arith)
  get_or-set_self (x ∷ xs) zero v d h = refl
  get_or-set_self (x ∷ xs) (suc i) v d h = get_or-set_self xs i v d (omega arith)

  pub get_or-set_other :
      (xs : List A) (i j : ℕ) (v d : A) → (i == j) ≡ false → get_or (set xs i v) j d ≡ get_or xs j d
  get_or-set_other [] i j v d h = refl
  get_or-set_other (x ∷ xs) zero zero v d h = absurd (ground arith)
  get_or-set_other (x ∷ xs) zero (suc j) v d h = refl
  get_or-set_other (x ∷ xs) (suc i) zero v d h = refl
  get_or-set_other (x ∷ xs) (suc i) (suc j) v d h = get_or-set_other xs i j v d (ground arith)

  -- Lists of one length that agree everywhere are equal.
  pub pointwise :
      (xs ys : List A) (d : A)
      → length xs ≡ length ys
      → ((i : ℕ) → i < length xs → get_or xs i d ≡ get_or ys i d)
      → xs ≡ ys
  pointwise [] [] d e h = refl
  pointwise [] (y ∷ ys) d e h = absurd (omega arith)
  pointwise (x ∷ xs) [] d e h = absurd (omega arith)
  pointwise (x ∷ xs) (y ∷ ys) d e h =
      let tails = pointwise xs ys d (omega arith) (λ i l. h (suc i) (omega arith)) in
      let heads = h zero (omega arith) in cc

-- How many marks are set.
abbrev pub marks : List Bool → ℕ
marks [] = 0
marks (true ∷ bs) = suc (marks bs)
marks (false ∷ bs) = marks bs

pub marks-replicate : (n : ℕ) → marks (replicate n false) ≡ 0
marks-replicate zero = refl
marks-replicate (suc n) = marks-replicate n

pub marks_le : (bs : List Bool) → marks bs ≤ length bs
marks_le [] = omega arith
marks_le (true ∷ bs) = omega (arith, marks_le bs)
marks_le (false ∷ bs) = omega (arith, marks_le bs)

pub marks-set :
    (bs : List Bool) (i : ℕ)
    → i < length bs
    → get_or bs i false ≡ false
    → marks (set bs i true) ≡ suc (marks bs)
marks-set [] i l h = absurd (omega arith)
marks-set (true ∷ bs) zero l h = absurd (ground arith)
marks-set (false ∷ bs) zero l h = refl
marks-set (true ∷ bs) (suc i) l h = ap suc (marks-set bs i (omega arith) h)
marks-set (false ∷ bs) (suc i) l h = marks-set bs i (omega arith) h

-- With as many marks as places, every place is marked.
pub marks_full :
    (bs : List Bool) (i : ℕ) → marks bs ≡ length bs → i < length bs → get_or bs i false ≡ true
marks_full [] i e l = absurd (omega arith)
marks_full (true ∷ bs) zero e l = refl
marks_full (true ∷ bs) (suc i) e l = marks_full bs i (omega arith) (omega arith)
marks_full (false ∷ bs) i e l = absurd (omega (arith, marks_le bs))

pub marks_full_iff :
    (bs : List Bool) → ((i : ℕ) → i < length bs → get_or bs i false ≡ true) → marks bs ≡ length bs
marks_full_iff [] h = refl
marks_full_iff (true ∷ bs) h = ap suc (marks_full_iff bs (λ i l. h (suc i) (omega arith)))
marks_full_iff (false ∷ bs) h = absurd (ground (arith, h zero (omega arith)))
