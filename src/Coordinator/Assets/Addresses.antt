-- ===== src/Coordinator/Assets/Addresses.antt =====
-- The conversions of an asset's identity agree (src/coordinator/session.cpp).
use p2p_gpu.Base.{
  ℕ, ◌+◌, ◌*◌, ◌/◌, ◌%◌, ◌≤◌, ◌<◌, ◌≡◌, refl, ap, subst, ◌∙◌, true, List, [], ◌∷◌, ◌++◌, arith,
  length, take, drop, all_of, All, length-take, length-drop, drop-drop, take_all, take-append-drop,
  All-take, All-drop,
}
use p2p_gpu.Coordinator.Assets.{
  is_hex_char, is_well_formed_address, hex_digit, hex_of, nibble, bytes_of_hex, lane_of, hash_of,
  lane_bytes, address_of,
}
use p2p_gpu.Coordinator.Affinity.{AssetId}

abbrev pub IsBytes : List ℕ → Type 0
IsBytes xs = All (λ b. b < 256) xs

lane_bytes-lane_of : (xs : List ℕ) → IsBytes xs → lane_bytes (length xs) (lane_of xs) ≡ xs
unfolding lane_of lane_bytes
lane_bytes-lane_of [] h = refl
lane_bytes-lane_of (x ∷ xs) h =
    let low : (x + 256 * lane_of xs) % 256 ≡ x = omega (arith, h.0) in
    let high : (x + 256 * lane_of xs) / 256 ≡ lane_of xs = omega (arith, h.0) in
    rw low (rw high (ap (λ r. x ∷ r) (lane_bytes-lane_of xs h.1)))

lane_of-take :
    (n : ℕ) (xs : List ℕ)
    → n ≤ length xs
    → IsBytes xs
    → lane_bytes n (lane_of (take n xs)) ≡ take n xs
lane_of-take n xs h bytes =
    let e : length (take n xs) ≡ n = length-take n xs ∙ omega arith in
    subst (λ k. lane_bytes k (lane_of (take n xs)) ≡ take n xs) e
      (lane_bytes-lane_of (take n xs) (All-take (λ b. b < 256) n xs bytes))

-- Four lanes make up the whole.
lanes :
    (xs : List ℕ)
    → length xs ≡ 32
    → take 8 xs ++ (take 8 (drop 8 xs) ++ (take 8 (drop 16 xs) ++ take 8 (drop 24 xs))) ≡ xs
lanes xs h =
    let whole : take 8 (drop 24 xs) ≡ drop 24 xs =
      take_all 8 (drop 24 xs) (length-drop 24 xs ∙ omega arith) in
    rw whole (rw (step 16 xs) (rw (step 8 xs) (take-append-drop 8 xs)))
  where
    step : (n : ℕ) (xs : List ℕ) → take 8 (drop n xs) ++ drop (n + 8) xs ≡ drop n xs
    step n xs = rw (← drop-drop n 8 xs) (take-append-drop 8 (drop n xs))

nibble-hex_digit : (v : ℕ) → v < 16 → nibble (hex_digit v) ≡ v
nibble-hex_digit v h = ground arith

hex_digit-IsHex : (v : ℕ) → v < 16 → is_hex_char (hex_digit v) ≡ true
hex_digit-IsHex v h = ground arith

bytes_of_hex-hex_of : (xs : List ℕ) → IsBytes xs → bytes_of_hex (hex_of xs) ≡ xs
unfolding bytes_of_hex hex_of
bytes_of_hex-hex_of [] h = refl
bytes_of_hex-hex_of (x ∷ xs) h =
    let high : x / 16 < 16 = omega (arith, h.0) in
    let low : x % 16 < 16 = omega arith in
    rw (nibble-hex_digit (x / 16) high) (
      rw (nibble-hex_digit (x % 16) low)
        (rw (bytes_of_hex-hex_of xs h.1) (ap (λ y. y ∷ xs) (omega arith))))

length-hex_of : (xs : List ℕ) → length (hex_of xs) ≡ 2 * length xs
unfolding hex_of
length-hex_of [] = refl
length-hex_of (x ∷ xs) = omega (arith, length-hex_of xs)

hex_of-IsHex : (xs : List ℕ) → IsBytes xs → all_of is_hex_char (hex_of xs) ≡ true
unfolding hex_of
hex_of-IsHex [] h = refl
hex_of-IsHex (x ∷ xs) h =
    let high : x / 16 < 16 = omega (arith, h.0) in
    let low : x % 16 < 16 = omega arith in
    rw (hex_digit-IsHex (x / 16) high) (rw (hex_digit-IsHex (x % 16) low) (hex_of-IsHex xs h.1))

lanes_back :
    (id : AssetId)
    → length id ≡ 32
    → IsBytes id
    → lane_bytes 8 (lane_of (take 8 id))
        ++ (lane_bytes 8 (lane_of (take 8 (drop 8 id)))
            ++ (lane_bytes 8 (lane_of (take 8 (drop 16 id)))
                ++ lane_bytes 8 (lane_of (take 8 (drop 24 id)))))
      ≡ id
lanes_back id h bytes = rw (back 0 (omega arith)) (
    rw (back 8 (omega arith))
      (rw (back 16 (omega arith)) (rw (back 24 (omega arith)) (lanes id h))))
  where
    back : (n : ℕ) → n ≤ 24 → lane_bytes 8 (lane_of (take 8 (drop n id))) ≡ take 8 (drop n id)
    back n le =
        lane_of-take 8 (drop n id) (omega (arith, length-drop n id))
          (All-drop (λ b. b < 256) n id bytes)

-- An asset whose 32-byte identity goes out in a grant as four lanes comes back in a request as the very
-- address under which the grant looked it up; that address is well formed, and read back by
-- `AdoptCachedAssets` it is the identity again.
pub address_of-hash_of :
    (id : AssetId)
    → length id ≡ 32
    → IsBytes id
    → (address_of (hash_of id) ≡ hex_of id)
      × (is_well_formed_address (hex_of id) ≡ true)
      × (bytes_of_hex (hex_of id) ≡ id)
unfolding address_of hash_of is_well_formed_address
address_of-hash_of id h bytes = (
  ap hex_of (lanes_back id h bytes),
  rw (length-hex_of id) (rw h (hex_of-IsHex id bytes)),
  bytes_of_hex-hex_of id bytes,
)
