-- ===== src/Coordinator/Assets/Examples.antt =====
-- The addresses of a concrete asset.
use p2p_gpu.Base.{ℕ, ◌≡◌, refl, true, List, [], ◌∷◌, ◌++◌, arith}
use p2p_gpu.Coordinator.Assets.{is_well_formed_address, hex_of, bytes_of_hex, hash_of, address_of}
use p2p_gpu.Coordinator.Assets.Addresses.{IsBytes, address_of-hash_of}
use p2p_gpu.Coordinator.Affinity.{AssetId}

abbrev octet : ℕ → List ℕ
octet b = b ∷ 1 ∷ 2 ∷ 3 ∷ 4 ∷ 5 ∷ 6 ∷ 7 ∷ []

abbrev scene_id : AssetId
scene_id = octet 255 ++ (octet 16 ++ (octet 0 ++ octet 171))

scene_id-IsBytes : IsBytes scene_id
scene_id-IsBytes = ground arith

address_of-hash_of_example :
    (address_of (hash_of scene_id) ≡ hex_of scene_id)
    × (is_well_formed_address (hex_of scene_id) ≡ true)
    × (bytes_of_hex (hex_of scene_id) ≡ scene_id)
address_of-hash_of_example = address_of-hash_of scene_id refl scene_id-IsBytes
