-- ===== src/Merkle/Sound.antt =====
-- The inclusion check of src/approvo/merkle.py on hashes: what passes it, up to collisions of SHA-256.
use approvo.Base.{
  ℕ, zero, suc, ◌-◌, ◌<◌, Bytes, CollisionIn, ◌≡◌, ◌≢◌, refl, sym, ap, ◌∙◌, subst, ◌⊎◌, inl, inr,
  Bool-cases, true, false, Option, none, some, List, [], ◌∷◌, ◌++◌, ltb, ltb→lt, ◌==◌, length, take,
  drop, get_elem?, length-take, length-drop, length-append, get_elem?-take, get_elem?-drop,
  append_inj, All, All-take, All-drop, arith,
}
use approvo.Merkle.{split_at, node, root_fuel, root, verify_down}
use approvo.Merkle.Split.{split_at_bounds, root-node}
use approvo.Merkle.Proofs.{rejoin}
use approvo.Merkle.Complete.{IsDigest}
use approvo.Merkle.Hashed.{
  among_more, HashedByRoot, at_root, in_left, in_right, HashedByWalk, on_left, on_right, below_left,
  below_right, node-CollisionIn,
}
use mathlib.Core.Option

-- 32 bytes
abbrev pub IsHash : Bytes → Type 0
IsHash h = length h ≡ 32

module _ (sha256 : Bytes → Bytes) where
  verify_down-single :
      (hs : List Bytes) (n : Bytes) (i : ℕ)
      → i < length hs
      → verify_down sha256 [] n i (length hs) ≡ some (root sha256 hs)
      → get_elem? hs i ≡ some n
  unfolding verify_down root root_fuel
  verify_down-single [] n i lt e = elim lt [ ]
  verify_down-single (x ∷ []) n zero lt e = sym e
  verify_down-single (x ∷ []) n (suc i) lt e = absurd (omega arith)
  verify_down-single (x ∷ y ∷ hs) n i lt e = ground arith

left_part : (a b c d : Bytes) → a ++ b ≡ c ++ d → length b ≡ length d → length a ≡ length c
left_part a b c d e l = omega (arith, length-append a b, length-append c d, ap length e)

map-eq-some :
    {A B : Type 0} (f : A → B) (o : Option A) {b : B}
    → Option.map f o ≡ some b
    → (a : A) × (o ≡ some a) × (f a ≡ b)
map-eq-some f none e = cc
map-eq-some f (some a) e = (a, refl, cc)

module _ (sha256 : Bytes → Bytes) where
  verify_down-several :
      (s : Bytes) (proof : List Bytes) (n : Bytes) (i size : ℕ) {r : Bytes}
      → verify_down sha256 (s ∷ proof) n i size ≡ some r
      → (size == 1) ≡ false
  unfolding verify_down
  verify_down-several s proof n i size e = ground arith

  -- How a step of the check that gives a result was taken.
  verify_down-cons :
      (s : Bytes) (proof : List Bytes) (n : Bytes) (i size : ℕ) {r : Bytes}
      → verify_down sha256 (s ∷ proof) n i size ≡ some r
      → (size ≢ 1)
        × (((ltb i (split_at size) ≡ true)
              × ((sub : Bytes) × (verify_down sha256 proof n i (split_at size) ≡ some sub)
                  × (node sha256 sub s ≡ r)))
            ⊎ ((ltb i (split_at size) ≡ false)
                × ((sub : Bytes) × (verify_down sha256 proof n
                        (i - split_at size)
                        (size - split_at size)
                      ≡ some sub)
                    × (node sha256 s sub ≡ r))))
  unfolding verify_down
  verify_down-cons s proof n i size e =
      let several = verify_down-several s proof n i size e in
      (
        ground arith,
        elim (Bool-cases (ltb i (split_at size))) [
          | inl less ↦ inl (less, map-eq-some _ _ (rw (several, less) at e))
          | inr more ↦ inr (more, map-eq-some _ _ (rw (several, more) at e))
        ],
      )

module _ (sha256 : Bytes → Bytes) (digest : IsDigest sha256) where
  pub root-IsHash : (hs : List Bytes) → 0 < length hs → All IsHash hs → IsHash (root sha256 hs)
  unfolding root root_fuel node
  root-IsHash [] h p = absurd (omega arith)
  root-IsHash (x ∷ []) h p = p.0
  root-IsHash (x ∷ y ∷ hs) h p = digest.size _

  node-IsHash : (a b : Bytes) → IsHash (node sha256 a b)
  unfolding node
  node-IsHash a b = digest.size _

  verify_down-IsHash :
      (proof : List Bytes) (n : Bytes) (i size : ℕ) {r : Bytes}
      → IsHash n
      → verify_down sha256 proof n i size ≡ some r
      → IsHash r
  unfolding verify_down node
  verify_down-IsHash [] n i size {r} h e = ground arith
  verify_down-IsHash (s ∷ proof) n i size {r} h e =
      elim (verify_down-cons sha256 s proof n i size e).1 [
        | inl (_, (sub, _, made)) ↦ subst IsHash made (node-IsHash sub s)
        | inr (_, (sub, _, made)) ↦ subst IsHash made (node-IsHash s sub)
      ]

  -- Whatever passes the walk up to the root of a tree is the leaf hash at that position, or a node of the walk collides with one of the
  -- tree.
  pub verify_down_sound :
      (proof : List Bytes) (hs : List Bytes) (n : Bytes) (i : ℕ)
      → IsHash n
      → All IsHash hs
      → i < length hs
      → verify_down sha256 proof n i (length hs) ≡ some (root sha256 hs)
      → (get_elem? hs i ≡ some n)
        ⊎ CollisionIn sha256 (HashedByWalk sha256 proof n i (length hs)) (HashedByRoot sha256 hs)
  verify_down_sound [] hs n i hn ph lt e = inl (verify_down-single sha256 hs n i lt e)
  verify_down_sound (s ∷ proof) hs n i hn ph lt e =
      let k = split_at (length hs) in
      let (several, way) = verify_down-cons sha256 s proof n i (length hs) e in
      let two : 1 < length hs = omega arith in
      let (k_pos, k_lt) = split_at_bounds (length hs) two in
      let left_size : length (take k hs) ≡ k = omega (arith, length-take k hs) in
      let right_size = length-drop k hs in
      let left = root-IsHash (take k hs) (omega arith) (All-take IsHash k hs ph) in
      let right = root-IsHash (drop k hs) (omega arith) (All-drop IsHash k hs ph) in
      elim way [
        | inl (less, (sub, below, made)) ↦
            elim (node-CollisionIn sha256 sub s (root sha256 (take k hs)) (root sha256 (drop k hs))
              (on_left s proof n i (length hs) sub less below) (at_root hs two)
              (made ∙ root-node sha256 hs two)) [
                | inr found ↦ inr found
                | inl same ↦
                    let sub_size = verify_down-IsHash proof n i k hn below in
                    let sub_eq =
                      (append_inj sub s (root sha256 (take k hs)) (root sha256 (drop k hs)) same
                        (sub_size ∙ sym left)).0 in
                    let below' : verify_down sha256 proof n i (length (take k hs))
                        ≡ some (root sha256 (take k hs)) =
                      rw (left_size, ← sub_eq) below in
                    elim (verify_down_sound proof (take k hs) n i hn (All-take IsHash k hs ph)
                      (rw left_size (ltb→lt i k less)) below') [
                        | inr found ↦ inr (
                            among_more
                              (λ x w.
                                below_left s proof n i (length hs) x less
                                  (subst (λ m. HashedByWalk sha256 proof n i m x) left_size w))
                              (λ x w. in_left hs x two w) found)
                        | inl there ↦ inl (sym (get_elem?-take k i hs (ltb→lt i k less)) ∙ there)
                      ]
              ]
        | inr (more, (sub, below, made)) ↦
            elim (node-CollisionIn sha256 s sub (root sha256 (take k hs)) (root sha256 (drop k hs))
              (on_right s proof n i (length hs) sub more below) (at_root hs two)
              (made ∙ root-node sha256 hs two)) [
                | inr found ↦ inr found
                | inl same ↦
                    let sub_size = verify_down-IsHash proof n (i - k) (length hs - k) hn below in
                    let sub_eq =
                      (append_inj s sub (root sha256 (take k hs)) (root sha256 (drop k hs)) same (
                        left_part s sub (root sha256 (take k hs)) (root sha256 (drop k hs)) same
                          (sub_size ∙ sym right))).1 in
                    let below' : verify_down sha256 proof n (i - k) (length (drop k hs))
                        ≡ some (root sha256 (drop k hs)) =
                      rw (right_size, ← sub_eq) below in
                    elim (verify_down_sound proof (drop k hs) n (i - k) hn (All-drop IsHash k hs ph)
                      (rw right_size (ground arith)) below') [
                        | inr found ↦ inr (
                            among_more
                              (λ x w.
                                below_right s proof n i (length hs) x more (
                                  subst (λ m. HashedByWalk sha256 proof n (i - k) m x) right_size
                                    w))
                              (λ x w. in_right hs x two w) found)
                        | inl there ↦ inl (
                            sym (get_elem?-drop k (i - k) hs ∙ ap (get_elem? hs) (rejoin i k more))
                            ∙ there)
                      ]
              ]
      ]
