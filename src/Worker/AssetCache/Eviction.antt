-- ===== src/Worker/AssetCache/Eviction.antt =====
-- What the eviction of src/worker-core/asset_cache.cpp does to the entries and to the count of bytes.
use p2p_gpu.Base.{
  ℕ, zero, suc, ◌+◌, ◌-◌, ◌*◌, ◌%◌, ◌≤◌, ◌<◌, ◌≡◌, refl, sym, subst, ◌∙◌, inl, inr, Bool, true,
  false, not, ◌&&◌, none, some, List, [], ◌∷◌, arith, ltb, ◌==◌, if◌then◌else◌, ==_iff, Bool-cases,
  u64_mod, length, bytes_eq, bytes_key, contains, lookup, insert, remove, emplace, keys, AllEntries,
  Distinct, Found, Found-self,
}
use p2p_gpu.Worker.AssetCache.{
  Address, Entry, AssetCache, oldest_from, evict_from, evict_oldest, is_full, is_vacant, evict,
}

abbrev pub total : List (Address × Entry) → ℕ
total [] = 0
total ((a, e) ∷ es) = length e.bytes + total es

total-remove :
    (a : Address) (e : Entry) (es : List (Address × Entry))
    → lookup a es ≡ some e
    → length e.bytes + total (remove a es) ≡ total es
unfolding lookup remove
total-remove a e [] q = cc
total-remove a e ((b, f) ∷ es) q = elim (Bool-cases (bytes_eq b a)) [
  | inl hit ↦ rw hit (same_size f (rw hit at q))
  | inr miss ↦ rw miss (omega (arith, total-remove a e es (rw miss at q)))
]
  where
    same_size :
        (f : Entry) → some f ≡ some e → length e.bytes + total es ≡ length f.bytes + total es
    same_size f r = grind arith

length-remove :
    (a : Address) (e : Entry) (es : List (Address × Entry))
    → lookup a es ≡ some e
    → suc (length (remove a es)) ≡ length es
unfolding lookup remove
length-remove a e [] q = cc
length-remove a e ((b, f) ∷ es) q = elim (Bool-cases (bytes_eq b a)) [
  | inl hit ↦ rw hit refl
  | inr miss ↦ rw miss (omega (arith, length-remove a e es (rw miss at q)))
]

remove-keys :
    (a b : Address) (es : List (Address × Entry))
    → contains (keys es) b ≡ false
    → contains (keys (remove a es)) b ≡ false
unfolding remove
remove-keys a b [] h = refl
remove-keys a b ((k, f) ∷ es) h = ground (arith, remove-keys a b es)

pub remove-Distinct :
    (a : Address) (es : List (Address × Entry)) → Distinct (keys es) → Distinct (keys (remove a es))
unfolding remove
remove-Distinct a [] d = tt
remove-Distinct a ((k, f) ∷ es) d = elim (Bool-cases (bytes_eq k a)) [
  | inl hit ↦ rw hit d.1
  | inr miss ↦ rw miss (remove-keys a k es d.0, remove-Distinct a es d.1)
]

pub remove-AllEntries {ℓ} :
    (P : Address → Entry → Type ℓ) (a : Address) (es : List (Address × Entry))
    → AllEntries P es
    → AllEntries P (remove a es)
unfolding remove
remove-AllEntries P a [] h = tt
remove-AllEntries P a ((k, f) ∷ es) h = elim (Bool-cases (bytes_eq k a)) [
  | inl hit ↦ rw hit h.1
  | inr miss ↦ rw miss (h.0, remove-AllEntries P a es h.1)
]

oldest_from-Found :
    (m : List (Address × Entry)) (best : Address × Entry) (es : List (Address × Entry))
    → lookup best.0 m ≡ some best.1
    → Found m es
    → lookup (oldest_from best es).0 m ≡ some (oldest_from best es).1
unfolding oldest_from
oldest_from-Found m best [] e f = e
oldest_from-Found m best (x ∷ es) e f =
    oldest_from-Found m (if older then x else best) es (either older) f.1
  where
    older : Bool
    older = ltb x.1.inserted_at best.1.inserted_at

    either : (b : Bool) → lookup (if b then x else best).0 m ≡ some (if b then x else best).1
    either true = f.0
    either false = e

-- The count is the sum of the sizes, which is within the budget, and no address occurs twice.
pub record IsCounted (c : AssetCache) : Type 0 where
  pub counted : c.resident ≡ total c.entries
  pub within : total c.entries ≤ c.max_bytes
  pub distinct : Distinct (keys c.entries)

pub evict_oldest_cases {ℓ} :
    (P : AssetCache → Type ℓ) (c : AssetCache)
    → IsCounted c
    → (c.entries ≡ [] → P c)
    → ((a : Address) (e : Entry)
        → lookup a c.entries ≡ some e
        → P (record c {
          resident = (c.resident + (u64_mod - length e.bytes)) % u64_mod;
          entries = remove a c.entries;
        }))
    → P (evict_oldest c)
evict_oldest_cases P c s none_left gone = go c.entries refl
  where
    go : (es : List (Address × Entry)) → c.entries ≡ es → P (evict_from es c)
    go [] q = unfold evict_from in none_left q
    go (e ∷ es) q =
        unfold evict_from in
        gone (oldest_from e (e ∷ es)).0 (oldest_from e (e ∷ es)).1 (
          subst (λ m. lookup (oldest_from e (e ∷ es)).0 m ≡ some (oldest_from e (e ∷ es)).1) (sym q)
            (oldest_from-Found (e ∷ es) e (e ∷ es) (found q).0 (found q)))
      where
        found : c.entries ≡ e ∷ es → Found (e ∷ es) (e ∷ es)
        found q = Found-self (e ∷ es) (subst (λ m. Distinct (keys m)) q s.distinct)

-- A budget below 2^63 keeps the sums in range.
abbrev pub InRange : AssetCache → Type 0
InRange c = c.max_bytes * 2 < u64_mod

evict_oldest-IsCounted : (c : AssetCache) → InRange c → IsCounted c → IsCounted (evict_oldest c)
evict_oldest-IsCounted c r s =
    evict_oldest_cases IsCounted c s (λ q. s)
      λ a e q. record {
        counted = less e.bytes (remove a c.entries) (total-remove a e c.entries q);
        within = omega (arith, total-remove a e c.entries q, s.within);
        distinct = remove-Distinct a c.entries s.distinct;
      }
  where
    less :
        (bytes : List ℕ) (rest : List (Address × Entry))
        → length bytes + total rest ≡ total c.entries
        → (c.resident + (u64_mod - length bytes)) % u64_mod ≡ total rest
    less bytes rest q = omega (arith, s.counted, s.within)

pub evict_oldest-budget : (c : AssetCache) → IsCounted c → (evict_oldest c).max_bytes ≡ c.max_bytes
evict_oldest-budget c s =
    evict_oldest_cases (λ x. x.max_bytes ≡ c.max_bytes) c s (λ q. refl) λ a e q. refl

evict_oldest-shorter :
    (c : AssetCache) (fuel : ℕ)
    → IsCounted c
    → 0 < length c.entries
    → length c.entries ≤ suc fuel
    → length (evict_oldest c).entries ≤ fuel
evict_oldest-shorter c fuel s n f =
    evict_oldest_cases (λ x. length x.entries ≤ fuel) c s (λ q. empty c.entries q n)
      λ a e q. omega (arith, length-remove a e c.entries q)
  where
    empty : (es : List (Address × Entry)) → es ≡ [] → 0 < length es → length es ≤ fuel
    empty [] q m = omega arith
    empty (e ∷ es) q m = cc

total-vacant : (es : List (Address × Entry)) → length es ≡ 0 → total es ≡ 0
total-vacant [] q = refl
total-vacant (e ∷ es) q = absurd (omega arith)

-- The test of the loop: the bytes fit, or nothing is left.
stops :
    (c : AssetCache) (incoming : ℕ)
    → InRange c
    → IsCounted c
    → incoming ≤ c.max_bytes
    → (is_full incoming c && not (is_vacant c)) ≡ false
    → total c.entries + incoming ≤ c.max_bytes
stops c incoming r s h e = elim (Bool-cases (is_full incoming c)) [
  | inr fits ↦
      room (c.resident + incoming) (omega (arith, s.counted, s.within)) fits
        (omega (arith, s.counted))
  | inl full ↦
      omega (arith, total-vacant c.entries ((==_iff (length c.entries) 0).0 (vacant full e)))
]
  where
    room :
        (n : ℕ)
        → n < u64_mod
        → ltb c.max_bytes (n % u64_mod) ≡ false
        → n ≡ total c.entries + incoming
        → total c.entries + incoming ≤ c.max_bytes
    room n lt fits q = grind arith

    vacant :
        is_full incoming c ≡ true
        → (is_full incoming c && not (is_vacant c)) ≡ false
        → is_vacant c ≡ true
    vacant full q = ground arith

more_left : (full vacant : Bool) → (full && not vacant) ≡ true → vacant ≡ false
more_left full vacant q = ground arith

nonempty : (n : ℕ) → (n == 0) ≡ false → 0 < n
nonempty n q = ground arith

-- In a counted cache whose budget is below 2^63, for bytes that fit the budget: with a round of fuel for
-- each entry the eviction ends with room for the bytes, the count of bytes is still the sum of the
-- entries' sizes, and the budget is unchanged.
pub evict_lem :
    (fuel incoming : ℕ) (c : AssetCache)
    → InRange c
    → IsCounted c
    → length c.entries ≤ fuel
    → incoming ≤ c.max_bytes
    → IsCounted (evict fuel incoming c)
      × (total (evict fuel incoming c).entries + incoming ≤ c.max_bytes)
      × ((evict fuel incoming c).max_bytes ≡ c.max_bytes)
unfolding evict
evict_lem zero incoming c r s f h = (s, omega (arith, total-vacant c.entries (omega arith)), refl)
evict_lem (suc fuel) incoming c r s f h =
    elim (Bool-cases (is_full incoming c && not (is_vacant c))) [
      | inl more ↦
          let same_budget = evict_oldest-budget c s in
          let (s', fits, q) =
            evict_lem fuel incoming (evict_oldest c) (omega (arith, same_budget))
              (evict_oldest-IsCounted c r s)
              (evict_oldest-shorter c fuel s
                (nonempty (length c.entries) (more_left (is_full incoming c) (is_vacant c) more)) f)
              (omega (arith, same_budget)) in
          rw more (s', omega (arith, same_budget), q ∙ same_budget)
      | inr enough ↦ rw enough (s, stops c incoming r s h enough, refl)
    ]

-- What every removal keeps, the eviction keeps.
pub evict_keeps {ℓ} :
    (P : List (Address × Entry) → Type ℓ) (fuel incoming : ℕ) (c : AssetCache)
    → ((a : Address) (es : List (Address × Entry)) → P es → P (remove a es))
    → P c.entries
    → P (evict fuel incoming c).entries
unfolding evict
evict_keeps P zero incoming c k h = h
evict_keeps P (suc fuel) incoming c k h =
    elim (Bool-cases (is_full incoming c && not (is_vacant c))) [
      | inl more ↦ rw more (evict_keeps P fuel incoming (evict_oldest c) k (one c.entries))
      | inr enough ↦ rw enough h
    ]
  where
    one : (es : List (Address × Entry)) → P (evict_from es c).entries
    one [] = unfold evict_from in h
    one (e ∷ es) = unfold evict_from in k (oldest_from e (e ∷ es)).0 c.entries h

pub remove-lookup-none :
    (a b : Address) (es : List (Address × Entry))
    → lookup b es ≡ none
    → lookup b (remove a es) ≡ none
unfolding lookup remove
remove-lookup-none a b [] h = refl
remove-lookup-none a b ((k, f) ∷ es) h = ground (arith, remove-lookup-none a b es)

pub total-emplace :
    (a : Address) (e : Entry) (es : List (Address × Entry))
    → lookup a es ≡ none
    → total (emplace a e es) ≡ total es + length e.bytes
unfolding emplace
total-emplace a e es h = rw (h, emplace) (inserted es h)
  where
    inserted :
        (m : List (Address × Entry))
        → lookup a m ≡ none
        → total (insert a e m) ≡ total m + length e.bytes
    inserted [] q = unfold insert in omega arith
    inserted ((k, f) ∷ m) q = unfold lookup insert in ground (arith, inserted m)
