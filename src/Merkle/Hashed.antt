-- ===== src/Merkle/Hashed.antt =====
-- The inputs that src/approvo/merkle.py gives to SHA-256 for a root and for an inclusion check, and collisions among them.
use approvo.Base.{
  ℕ, ◌-◌, ◌<◌, String, Bytes, utf8, CollisionIn, Bytes-discrete, ◌≡◌, ap, ◌⊎◌, inl, inr, true,
  false, some, List, ◌∷◌, ◌++◌, map, In, ltb, length, take, drop,
}
use approvo.Result.{ok}
use approvo.Merkle.{split_at, leaf_hash, node, root, verify_down, from_hex_all}
use mathlib.Core.List.{reverse}

pub different-CollisionIn :
    {f : Bytes → Bytes} {P Q : Bytes → Type 0} (x y : Bytes)
    → P x
    → Q y
    → f x ≡ f y
    → (x ≡ y) ⊎ CollisionIn f P Q
different-CollisionIn x y p q e = elim (Bytes-discrete x y) [
  | yes same ↦ inl same
  | no differ ↦ inr (x, y, p, q, differ, e)
]

pub among_more :
    {f : Bytes → Bytes} {P Q R S : Bytes → Type 0}
    → ((x : Bytes) → P x → R x)
    → ((x : Bytes) → Q x → S x)
    → CollisionIn f P Q
    → CollisionIn f R S
among_more g h (x, y, p, q, differ, e) = (x, y, g x p, h y q, differ, e)

module _ (sha256 : Bytes → Bytes) where
  -- The nodes of the tree over a list of hashes, from the root down.
  pub data HashedByRoot : List Bytes → Bytes → Type 0 where
    at_root :
        (hs : List Bytes)
        → 1 < length hs
        → HashedByRoot hs (
            0x01
            ∷ (root sha256 (take (split_at (length hs)) hs)
                ++ root sha256 (drop (split_at (length hs)) hs)))
    in_left :
        (hs : List Bytes) (x : Bytes)
        → 1 < length hs
        → HashedByRoot (take (split_at (length hs)) hs) x
        → HashedByRoot hs x
    in_right :
        (hs : List Bytes) (x : Bytes)
        → 1 < length hs
        → HashedByRoot (drop (split_at (length hs)) hs) x
        → HashedByRoot hs x

  -- The nodes that the walk of the check computes, over the siblings from the root down.
  pub data HashedByWalk : List Bytes → Bytes → ℕ → ℕ → Bytes → Type 0 where
    on_left :
        (s : Bytes) (proof : List Bytes) (n : Bytes) (i size : ℕ) (sub : Bytes)
        → ltb i (split_at size) ≡ true
        → verify_down sha256 proof n i (split_at size) ≡ some sub
        → HashedByWalk (s ∷ proof) n i size (0x01 ∷ (sub ++ s))
    on_right :
        (s : Bytes) (proof : List Bytes) (n : Bytes) (i size : ℕ) (sub : Bytes)
        → ltb i (split_at size) ≡ false
        → verify_down sha256 proof n (i - split_at size) (size - split_at size) ≡ some sub
        → HashedByWalk (s ∷ proof) n i size (0x01 ∷ (s ++ sub))
    below_left :
        (s : Bytes) (proof : List Bytes) (n : Bytes) (i size : ℕ) (x : Bytes)
        → ltb i (split_at size) ≡ true
        → HashedByWalk proof n i (split_at size) x
        → HashedByWalk (s ∷ proof) n i size x
    below_right :
        (s : Bytes) (proof : List Bytes) (n : Bytes) (i size : ℕ) (x : Bytes)
        → ltb i (split_at size) ≡ false
        → HashedByWalk proof n (i - split_at size) (size - split_at size) x
        → HashedByWalk (s ∷ proof) n i size x

  -- What `merkle_root` hashes: the leaves, and the nodes over them.
  abbrev pub HashedByLog : List String → Bytes → Type 0
  HashedByLog leaves x =
      ((leaf : String) × In leaf leaves × (x ≡ 0x00 ∷ utf8 leaf))
      ⊎ HashedByRoot (map (leaf_hash sha256) leaves) x

  -- What `verify_inclusion` hashes: the leaf, and the nodes of the walk up the proof.
  abbrev pub HashedByCheck : String → ℕ → ℕ → List String → Bytes → Type 0
  HashedByCheck leaf i size proof x =
      (x ≡ 0x00 ∷ utf8 leaf)
      ⊎ ((bs : List Bytes) × (from_hex_all proof ≡ ok bs)
          × HashedByWalk (reverse bs) (leaf_hash sha256 leaf) i size x)

  -- Two nodes with one hash are over the same bytes.
  pub node-CollisionIn :
      {P Q : Bytes → Type 0} (a b c d : Bytes)
      → P (0x01 ∷ (a ++ b))
      → Q (0x01 ∷ (c ++ d))
      → node sha256 a b ≡ node sha256 c d
      → (a ++ b ≡ c ++ d) ⊎ CollisionIn sha256 P Q
  unfolding node
  node-CollisionIn a b c d p q e =
      elim (different-CollisionIn (0x01 ∷ (a ++ b)) (0x01 ∷ (c ++ d)) p q e) [
        | inr found ↦ inr found
        | inl same ↦ inl (ap (drop 1) same)
      ]
