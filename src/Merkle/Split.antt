-- ===== src/Merkle/Split.antt =====
-- The split point of src/approvo/merkle.py and the fuel of `root_fuel`.
use approvo.Base.{
  ℕ, zero, suc, ◌+◌, ◌*◌, ◌^◌, ◌≤◌, ◌<◌, Bytes, ◌≡◌, refl, sym, inl, inr, Bool-cases, List, [], ◌∷◌,
  ltb, ltb→lt, length, take, drop, length-take, length-drop, arith,
}
use approvo.Merkle.{double_until, split_at, node, root_fuel, root}
use native.Mathlib.Nat.{pow-suc}

-- With enough fuel the loop stops at a power of two below `n` whose double is not below `n`.
double_until_lem :
    (fuel n k j : ℕ)
    → k ≡ 2 ^ j
    → 0 < k
    → k < n
    → n ≤ k + fuel
    → (i : ℕ) × (double_until fuel n k ≡ 2 ^ i)
      × (double_until fuel n k < n)
      × (n ≤ double_until fuel n k * 2)
unfolding double_until
double_until_lem zero n k j e p l f = absurd (omega arith)
double_until_lem (suc fuel) n k j e p l f = elim (Bool-cases (ltb (k * 2) n)) [
  | inl more ↦ rw more (
      double_until_lem fuel n (k * 2) (suc j) (rw e (sym (pow-suc 2 j))) (omega arith)
        (ltb→lt _ _ more) (omega arith))
  | inr done ↦ rw done (j, e, l, ground arith)
]

-- For two leaves or more the split point is the largest power of two below their number.
pub split_at_lem :
    (n : ℕ) → 1 < n → (i : ℕ) × (split_at n ≡ 2 ^ i) × (split_at n < n) × (n ≤ split_at n * 2)
unfolding split_at
split_at_lem n h = double_until_lem n n 1 0 refl (omega arith) h (omega arith)

pub split_at_bounds : (n : ℕ) → 1 < n → (0 < split_at n) × (split_at n < n)
split_at_bounds n h = let (i, p, l, m) = split_at_lem n h in (omega arith, l)

module _ (sha256 : Bytes → Bytes) where
  -- More fuel than there are leaves changes nothing.
  root_fuel_enough :
      (f g : ℕ) (hs : List Bytes)
      → length hs ≤ f
      → length hs ≤ g
      → root_fuel sha256 f hs ≡ root_fuel sha256 g hs
  unfolding root_fuel
  root_fuel_enough f g [] p q = refl
  root_fuel_enough f g (h ∷ []) p q = refl
  root_fuel_enough zero g (h ∷ k ∷ hs) p q = absurd (omega arith)
  root_fuel_enough (suc f) zero (h ∷ k ∷ hs) p q = absurd (omega arith)
  root_fuel_enough (suc f) (suc g) (h ∷ k ∷ hs) p q =
      let l = h ∷ k ∷ hs in
      let s = split_at (length l) in
      let (pos_s, lt_s) = split_at_bounds (length l) (omega arith) in
      let left = length-take s l in
      let right = length-drop s l in
      rw (
        root_fuel_enough f g (take s l) (omega arith) (omega arith),
        root_fuel_enough f g (drop s l) (omega arith) (omega arith),
      )

  -- The root of two leaves or more is the node over the roots of its two parts.
  pub root-node :
      (hs : List Bytes)
      → 1 < length hs
      → root sha256 hs
        ≡ node sha256
            (root sha256 (take (split_at (length hs)) hs))
            (root sha256 (drop (split_at (length hs)) hs))
  unfolding root root_fuel
  root-node [] h = absurd (omega arith)
  root-node (x ∷ []) h = absurd (omega arith)
  root-node (x ∷ y ∷ hs) h =
      let l = x ∷ y ∷ hs in
      let s = split_at (length l) in
      let (pos_s, lt_s) = split_at_bounds (length l) h in
      let left = length-take s l in
      let right = length-drop s l in
      rw (
        root_fuel_enough (suc (length hs)) (length (take s l)) (take s l) (omega arith)
            (omega arith),
        root_fuel_enough (suc (length hs)) (length (drop s l)) (drop s l) (omega arith)
            (omega arith),
      )
