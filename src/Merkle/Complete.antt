-- ===== src/Merkle/Complete.antt =====
-- `inclusion_proof` and `verify_inclusion` of src/approvo/merkle.py on texts: proofs that are made for leaves.
use approvo.Base.{
  ℕ, zero, suc, ◌-◌, ◌<◌, String, Bytes, ◌≡◌, refl, subst, inl, inr, Bool-cases, true, some, List,
  [], ◌∷◌, ltb, lt→ltb, length, take, drop, get_elem?, All, map, hex, from_hex-hex, from_hex,
  from_hex_codes, codes, codes-append, All-append, All-take, All-drop, get_elem?-map, length-map,
  bytes_eq_refl, append_text, get_elem?-lt,
}
use approvo.Merkle.{
  split_at, node, root_fuel, root, path_fuel, path, verify_path, from_hex_all, root_bytes,
  merkle_root, inclusion_proof, verify_inclusion, leaf_hash,
}
use approvo.Result.{ok}
use approvo.Merkle.Proofs.{verify_path-path}

from_hex_all-hex :
    (bs : List Bytes) → All (All (λ b. b < 256)) bs → from_hex_all (map hex bs) ≡ ok bs
unfolding from_hex_all
from_hex_all-hex [] h = refl
from_hex_all-hex (b ∷ bs) h = rw (from_hex-hex b h.0, from_hex_all-hex bs h.1)

read_back : (r : Bytes) → All (λ b. b < 256) r → from_hex_codes (codes (hex r)) ≡ some r
unfolding from_hex
read_back r h = from_hex-hex r h

pub root_bytes-root :
    (r : Bytes) → All (λ b. b < 256) r → root_bytes (append_text "sha256:" (hex r)) ≡ ok r
unfolding root_bytes
root_bytes-root r h = rw (codes-append "sha256:" (hex r)) (rw (read_back r h))

-- What the documentation of `hashlib` says of a SHA-256 digest: 32 bytes.
pub record IsDigest (sha256 : Bytes → Bytes) : Type 0 where
  pub size : (x : Bytes) → length (sha256 x) ≡ 32
  pub bytes : (x : Bytes) → All (λ b. b < 256) (sha256 x)

module _ (sha256 : Bytes → Bytes) (digest : IsDigest sha256) where
  pub All-leaf_hash :
      (leaves : List String) → All (All (λ b. b < 256)) (map (leaf_hash sha256) leaves)
  unfolding leaf_hash
  All-leaf_hash [] = tt
  All-leaf_hash (l ∷ leaves) = (digest.bytes _, All-leaf_hash leaves)

  root_fuel-bytes :
      (f : ℕ) (hs : List Bytes)
      → All (All (λ b. b < 256)) hs
      → All (λ b. b < 256) (root_fuel sha256 f hs)
  unfolding root_fuel node
  root_fuel-bytes f [] p = digest.bytes []
  root_fuel-bytes f (h ∷ []) p = p.0
  root_fuel-bytes zero (h ∷ g ∷ hs) p = tt
  root_fuel-bytes (suc f) (h ∷ g ∷ hs) p = digest.bytes _

  pub root-bytes :
      (hs : List Bytes) → All (All (λ b. b < 256)) hs → All (λ b. b < 256) (root sha256 hs)
  unfolding root
  root-bytes hs p = root_fuel-bytes (length hs) hs p

  path_fuel-bytes :
      (f : ℕ) (hs : List Bytes) (i : ℕ)
      → All (All (λ b. b < 256)) hs
      → All (All (λ b. b < 256)) (path_fuel sha256 f hs i)
  unfolding path_fuel
  path_fuel-bytes f [] i p = tt
  path_fuel-bytes f (h ∷ []) i p = tt
  path_fuel-bytes zero (h ∷ g ∷ hs) i p = tt
  path_fuel-bytes (suc f) (h ∷ g ∷ hs) i p =
      let l = h ∷ g ∷ hs in
      let k = split_at (length l) in
      let left = All-take _ k l p in
      let right = All-drop _ k l p in
      elim (Bool-cases (ltb i k)) [
        | inl less ↦ rw less (
            All-append _ (path_fuel sha256 f (take k l) i) (root sha256 (drop k l) ∷ [])
              (path_fuel-bytes f (take k l) i left) (root-bytes (drop k l) right, tt))
        | inr more ↦ rw more (
            All-append _ (path_fuel sha256 f (drop k l) (i - k)) (root sha256 (take k l) ∷ [])
              (path_fuel-bytes f (drop k l) (i - k) right) (root-bytes (take k l) left, tt))
      ]

  path_bytes :
      (hs : List Bytes) (i : ℕ)
      → All (All (λ b. b < 256)) hs
      → All (All (λ b. b < 256)) (path sha256 hs i)
  unfolding path
  path_bytes hs i p = path_fuel-bytes (length hs) hs i p

  -- For a digest of 32 bytes and for every leaf of a log: `inclusion_proof` succeeds, and its proof passes `verify_inclusion` against the root of that
  -- log.
  pub inclusion_proof-verifies :
      (leaves : List String) (i : ℕ) (leaf : String)
      → get_elem? leaves i ≡ some leaf
      → (proof : List String) × (inclusion_proof sha256 leaves i ≡ ok proof)
        × (verify_inclusion sha256 leaf i (length leaves) proof (merkle_root sha256 leaves)
            ≡ ok true)
  unfolding inclusion_proof verify_inclusion merkle_root
  inclusion_proof-verifies leaves i leaf e =
      let hs = map (leaf_hash sha256) leaves in
      let inside : ltb i (length leaves) ≡ true = lt→ltb _ _ (get_elem?-lt leaves i e) in
      let all_bytes = All-leaf_hash leaves in
      let same : verify_path sha256 (leaf_hash sha256 leaf) i (length leaves) (path sha256 hs i)
          ≡ some (root sha256 hs) =
        subst
          (λ n.
            verify_path sha256 (leaf_hash sha256 leaf) i n (path sha256 hs i)
            ≡ some (root sha256 hs))
          (length-map (leaf_hash sha256) leaves)
          (verify_path-path sha256 hs i (leaf_hash sha256 leaf)
            (get_elem?-map (leaf_hash sha256) leaves i e)) in
      (
        map hex (path sha256 hs i),
        rw inside,
        rw (
          inside,
          from_hex_all-hex (path sha256 hs i) (path_bytes hs i all_bytes),
          same,
          root_bytes-root (root sha256 hs) (root-bytes hs all_bytes),
          bytes_eq_refl (root sha256 hs),
        ),
      )
