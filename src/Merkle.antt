-- ===== src/Merkle.antt =====
-- src/approvo/merkle.py: the RFC 6962 tree over the entry hashes, inclusion proofs and their check.
pub mod Split
pub mod Proofs
pub mod Complete
pub mod Hashed
pub mod Sound
pub mod Binding
use approvo.Base.{
  ℕ, zero, suc, ◌+◌, ◌-◌, ◌*◌, String, append_text, Bytes, utf8, hex, from_hex, from_hex_codes,
  strip, codes, bytes_eq, Bool, true, false, Option, none, some, List, [], ◌∷◌, ◌++◌, map, ltb,
  ◌==◌, if◌then◌else◌, length, take, drop,
}
use approvo.Result.{Result, ok, err, or_raise, index_error, value_error, ◌>>=◌}
use mathlib.Core.Option
use mathlib.Core.List.{reverse}

-- `k = 1; while k * 2 < n: k *= 2`, with the fuel `n`.
unfoldable pub double_until : ℕ → ℕ → ℕ → ℕ
double_until zero n k = k
double_until (suc fuel) n k =
    let rest = double_until fuel n (k * 2) in if ltb (k * 2) n then rest else k

unfoldable pub split_at : ℕ → ℕ
unfolding double_until
split_at n = double_until n n 1

-- `[bytes.fromhex(p) for p in proof]`
unfoldable pub from_hex_all : List String → Result (List Bytes)
from_hex_all [] = ok []
from_hex_all (p ∷ ps) = do b ← or_raise (from_hex p) value_error; bs ← from_hex_all ps; ok (b ∷ bs)

-- `bytes.fromhex(root.removeprefix("sha256:"))`
unfoldable pub root_bytes : String → Result Bytes
unfolding from_hex_codes strip
root_bytes root_text =
    or_raise
      (from_hex_codes (Option.get_or (strip (codes "sha256:") (codes root_text)) (codes root_text)))
      value_error

unfoldable pub matches_root : Option Bytes → String → Result Bool
unfolding root_bytes
matches_root none root_text = ok false
matches_root (some computed) root_text = do r ← root_bytes root_text; ok (bytes_eq computed r)

module _ (sha256 : Bytes → Bytes) where
  unfoldable pub leaf_hash : String → Bytes
  leaf_hash leaf = sha256 (0x00 ∷ utf8 leaf)

  unfoldable pub node : Bytes → Bytes → Bytes
  node left right = sha256 (0x01 ∷ (left ++ right))

  -- `_root`. The depth of the recursion is bounded by the number of leaves, the fuel.
  unfoldable pub root_fuel : ℕ → List Bytes → Bytes
  root_fuel fuel [] = sha256 []
  root_fuel fuel (h ∷ []) = h
  root_fuel zero (h ∷ g ∷ hs) = []
  root_fuel (suc fuel) (h ∷ g ∷ hs) =
      let k = split_at (length (h ∷ g ∷ hs)) in
      node (root_fuel fuel (take k (h ∷ g ∷ hs))) (root_fuel fuel (drop k (h ∷ g ∷ hs)))

  unfoldable pub root : List Bytes → Bytes
  unfolding root_fuel
  root hashes = root_fuel (length hashes) hashes

  unfoldable pub merkle_root : List String → String
  unfolding root leaf_hash
  merkle_root leaves = append_text "sha256:" (hex (root (map leaf_hash leaves)))

  -- `path` in `inclusion_proof`: the siblings from the leaf up.
  unfoldable pub path_fuel : ℕ → List Bytes → ℕ → List Bytes
  unfolding root
  path_fuel fuel [] i = []
  path_fuel fuel (h ∷ []) i = []
  path_fuel zero (h ∷ g ∷ hs) i = []
  path_fuel (suc fuel) (h ∷ g ∷ hs) i =
      let k = split_at (length (h ∷ g ∷ hs)) in
      let left = take k (h ∷ g ∷ hs) in
      let right = drop k (h ∷ g ∷ hs) in
      let left_path = path_fuel fuel left i in
      let right_path = path_fuel fuel right (i - k) in
      if ltb i k then left_path ++ root right ∷ [] else right_path ++ root left ∷ []

  unfoldable pub path : List Bytes → ℕ → List Bytes
  unfolding path_fuel
  path hashes i = path_fuel (length hashes) hashes i

  unfoldable pub inclusion_proof : List String → ℕ → Result (List String)
  unfolding path leaf_hash
  inclusion_proof leaves index =
      if ltb index (length leaves)
      then ok (map hex (path (map leaf_hash leaves) index))
      else err index_error

  -- `_verify_inclusion`, over the proof from its last sibling on.
  unfoldable pub verify_down : List Bytes → Bytes → ℕ → ℕ → Option Bytes
  unfolding node
  verify_down [] n index size = if size == 1 then some n else none
  verify_down (sibling ∷ rest) n index size =
      let k = split_at size in
      let below_left = Option.map (λ sub. node sub sibling) (verify_down rest n index k) in
      let below_right =
        Option.map (λ sub. node sibling sub) (verify_down rest n (index - k) (size - k)) in
      if size == 1 then none else if ltb index k then below_left else below_right

  unfoldable pub verify_path : Bytes → ℕ → ℕ → List Bytes → Option Bytes
  unfolding verify_down
  verify_path n index size proof = verify_down (reverse proof) n index size

  unfoldable pub verify_inclusion : String → ℕ → ℕ → List String → String → Result Bool
  unfolding leaf_hash verify_path from_hex_all matches_root
  verify_inclusion leaf index tree_size proof root_text =
      if ltb index tree_size
      then (do
        bs ← from_hex_all proof
        matches_root (verify_path (leaf_hash leaf) index tree_size bs) root_text)
      else ok false
