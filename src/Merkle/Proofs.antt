-- ===== src/Merkle/Proofs.antt =====
-- The inclusion proofs of src/approvo/merkle.py on hashes.
use approvo.Base.{
  ℕ, zero, suc, ◌+◌, ◌-◌, ◌≤◌, ◌<◌, Bytes, ◌≡◌, sym, ap, ◌∙◌, inl, inr, Bool-cases, true, false,
  some, List, [], ◌∷◌, ◌++◌, ltb, ltb→lt, length, take, drop, get_elem?, length-take, length-drop,
  get_elem?-take, get_elem?-drop, arith,
}
use approvo.Merkle.{split_at, node, root, path_fuel, path, verify_down, verify_path}
use approvo.Merkle.Split.{split_at_bounds, root-node}
use mathlib.Core.List.{reverse, reverse-append}

pub rejoin : (i k : ℕ) → ltb i k ≡ false → k + (i - k) ≡ i
rejoin i k h = ground arith

module _ (sha256 : Bytes → Bytes) where
  verify_down-left :
      (sibling : Bytes) (rest : List Bytes) (n : Bytes) (i size : ℕ) (r : Bytes)
      → 1 < size
      → ltb i (split_at size) ≡ true
      → verify_down sha256 rest n i (split_at size) ≡ some r
      → verify_down sha256 (sibling ∷ rest) n i size ≡ some (node sha256 r sibling)
  unfolding verify_down
  verify_down-left sibling rest n i size r h l e = ground arith

  verify_down-right :
      (sibling : Bytes) (rest : List Bytes) (n : Bytes) (i size : ℕ) (r : Bytes)
      → 1 < size
      → ltb i (split_at size) ≡ false
      → verify_down sha256 rest n (i - split_at size) (size - split_at size) ≡ some r
      → verify_down sha256 (sibling ∷ rest) n i size ≡ some (node sha256 sibling r)
  unfolding verify_down
  verify_down-right sibling rest n i size r h l e = ground arith

  -- One level up from the left part, and from the right part.
  down_left :
      (hs : List Bytes) (i : ℕ) (h : Bytes) (proof : List Bytes)
      → 1 < length hs
      → ltb i (split_at (length hs)) ≡ true
      → verify_down sha256 (reverse proof) h i (length (take (split_at (length hs)) hs))
        ≡ some (root sha256 (take (split_at (length hs)) hs))
      → verify_down sha256
          (reverse (proof ++ root sha256 (drop (split_at (length hs)) hs) ∷ []))
          h
          i
          (length hs)
        ≡ some (root sha256 hs)
  down_left hs i h proof two less e =
      let k = split_at (length hs) in
      let (k_pos, k_lt) = split_at_bounds (length hs) two in
      let size : length (take k hs) ≡ k = omega (arith, length-take k hs) in
      rw (reverse-append proof (root sha256 (drop k hs) ∷ []), root-node sha256 hs two)
        (verify_down-left (root sha256 (drop k hs)) (reverse proof) h i (length hs)
          (root sha256 (take k hs)) two less (rw size at e))

  down_right :
      (hs : List Bytes) (i : ℕ) (h : Bytes) (proof : List Bytes)
      → 1 < length hs
      → ltb i (split_at (length hs)) ≡ false
      → verify_down sha256
          (reverse proof)
          h
          (i - split_at (length hs))
          (length (drop (split_at (length hs)) hs))
        ≡ some (root sha256 (drop (split_at (length hs)) hs))
      → verify_down sha256
          (reverse (proof ++ root sha256 (take (split_at (length hs)) hs) ∷ []))
          h
          i
          (length hs)
        ≡ some (root sha256 hs)
  down_right hs i h proof two more e =
      let k = split_at (length hs) in
      rw (reverse-append proof (root sha256 (take k hs) ∷ []), root-node sha256 hs two)
        (verify_down-right (root sha256 (take k hs)) (reverse proof) h i (length hs)
          (root sha256 (drop k hs)) two more (rw (length-drop k hs) at e))

  path_fuel_complete :
      (f : ℕ) (hs : List Bytes) (i : ℕ) (h : Bytes)
      → length hs ≤ f
      → get_elem? hs i ≡ some h
      → verify_down sha256 (reverse (path_fuel sha256 f hs i)) h i (length hs)
        ≡ some (root sha256 hs)
  unfolding path_fuel
  path_fuel_complete f [] i h l e = cc
  path_fuel_complete f (x ∷ []) zero h l e = unfold verify_down root in sym e
  path_fuel_complete f (x ∷ []) (suc i) h l e = cc
  path_fuel_complete zero (x ∷ y ∷ hs) i h l e = absurd (omega arith)
  path_fuel_complete (suc f) (x ∷ y ∷ hs) i h l e =
      let all_hs = x ∷ y ∷ hs in
      let k = split_at (length all_hs) in
      let (k_pos, k_lt) = split_at_bounds (length all_hs) (omega arith) in
      let left : length (take k all_hs) ≡ k = omega (arith, length-take k all_hs) in
      let right : length (drop k all_hs) ≡ length all_hs - k = length-drop k all_hs in
      elim (Bool-cases (ltb i k)) [
        | inl less ↦ rw less (
            down_left all_hs i h (path_fuel sha256 f (take k all_hs) i) (omega arith) less (
              path_fuel_complete f (take k all_hs) i h (omega arith)
                (get_elem?-take k i all_hs (ltb→lt i k less) ∙ e)))
        | inr more ↦
            let there : get_elem? (drop k all_hs) (i - k) ≡ some h =
              get_elem?-drop k (i - k) all_hs ∙ ap (get_elem? all_hs) (rejoin i k more) ∙ e in
            rw more (
              down_right all_hs i h (path_fuel sha256 f (drop k all_hs) (i - k)) (omega arith) more
                (path_fuel_complete f (drop k all_hs) (i - k) h (omega arith) there))
      ]

  -- The path of the leaf at a position, with the leaf and the number of leaves, gives back the root.
  pub verify_path-path :
      (hs : List Bytes) (i : ℕ) (h : Bytes)
      → get_elem? hs i ≡ some h
      → verify_path sha256 h i (length hs) (path sha256 hs i) ≡ some (root sha256 hs)
  unfolding verify_path path
  verify_path-path hs i h e = path_fuel_complete (length hs) hs i h (omega arith) e
