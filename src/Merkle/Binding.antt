-- ===== src/Merkle/Binding.antt =====
-- `merkle_root` and `verify_inclusion` of src/approvo/merkle.py on texts: what a root binds, up to collisions of SHA-256.
use approvo.Base.{
  ℕ, zero, suc, ◌≤◌, ◌<◌, String, Bytes, CollisionIn, In, some_inj, utf8, utf8-injective,
  bytes_eq_sound, ◌≡◌, refl, sym, ap, ◌∙◌, subst, ◌⊎◌, inl, inr, Bool-cases, true, false, Option,
  none, some, hex-injective, List, [], ◌∷◌, ◌++◌, map, ltb, ltb→lt, length, take, drop, get_elem?,
  length-take, length-drop, length-map, take-append-drop, append_inj, All, All-take, All-drop,
  arith, get_elem?-map_inv,
}
use approvo.Result.{ok, >>=-eq-ok, ok-injective}
use approvo.Merkle.{
  split_at, leaf_hash, node, root_fuel, root, merkle_root, verify_path, verify_inclusion,
  root_bytes, matches_root, from_hex_all,
}
use approvo.Merkle.Split.{split_at_bounds, root-node}
use approvo.Merkle.Complete.{IsDigest, All-leaf_hash, root-bytes, root_bytes-root}
use approvo.Merkle.Sound.{IsHash, root-IsHash, verify_down_sound}
use approvo.Merkle.Hashed.{
  different-CollisionIn, among_more, HashedByRoot, at_root, in_left, in_right, HashedByWalk,
  HashedByLog, HashedByCheck, node-CollisionIn,
}
use mathlib.Core.Path.{ap₂}
use mathlib.Core.List.{reverse}
use text.Mathlib.TextLemmas.{append_cancel_left}

module _ (sha256 : Bytes → Bytes) where
  leaf_hash-CollisionIn :
      {P Q : Bytes → Type 0} (a b : String)
      → P (0x00 ∷ utf8 a)
      → Q (0x00 ∷ utf8 b)
      → leaf_hash sha256 a ≡ leaf_hash sha256 b
      → (a ≡ b) ⊎ CollisionIn sha256 P Q
  unfolding leaf_hash
  leaf_hash-CollisionIn a b p q e =
      elim (different-CollisionIn (0x00 ∷ utf8 a) (0x00 ∷ utf8 b) p q e) [
        | inr found ↦ inr found
        | inl same ↦ inl (utf8-injective a b (ap (drop 1) same))
      ]

  abbrev LeafOf : List String → Bytes → Type 0
  LeafOf leaves x = (leaf : String) × In leaf leaves × (x ≡ 0x00 ∷ utf8 leaf)

  other_leaf : (l : String) (ls : List String) (x : Bytes) → LeafOf ls x → LeafOf (l ∷ ls) x
  other_leaf l ls x (leaf, among, e) = (leaf, inr among, e)

  leaf_hashes-CollisionIn :
      (ls ms : List String)
      → map (leaf_hash sha256) ls ≡ map (leaf_hash sha256) ms
      → (ls ≡ ms) ⊎ CollisionIn sha256 (LeafOf ls) (LeafOf ms)
  leaf_hashes-CollisionIn [] [] e = inl refl
  leaf_hashes-CollisionIn [] (m ∷ ms) e = cc
  leaf_hashes-CollisionIn (l ∷ ls) [] e = cc
  leaf_hashes-CollisionIn (l ∷ ls) (m ∷ ms) e =
      elim (leaf_hash-CollisionIn {P = LeafOf (l ∷ ls)} {Q = LeafOf (m ∷ ms)} l m
        (l, inl refl, refl) (m, inl refl, refl) (cc)) [
          | inr found ↦ inr found
          | inl same ↦ elim (leaf_hashes-CollisionIn ls ms (ap (drop 1) e)) [
            | inr found ↦ inr (among_more (other_leaf l ls) (other_leaf m ms) found)
            | inl rest ↦ inl (ap₂ (λ a l. a ∷ l) same rest)
          ]
        ]

get_elem?-In : (ls : List String) (i : ℕ) {l : String} → get_elem? ls i ≡ some l → In l ls
get_elem?-In [] i h = cc
get_elem?-In (x ∷ ls) zero h = inl (some_inj (sym h))
get_elem?-In (x ∷ ls) (suc i) h = inr (get_elem?-In ls i h)

ok_false : ok false ≡ ok true → ⊥
ok_false e = cc

matches_root_sound :
    (o : Option Bytes) (root_text : String) {r : Bytes}
    → matches_root o root_text ≡ ok true
    → root_bytes root_text ≡ ok r
    → o ≡ some r
unfolding matches_root
matches_root_sound none root_text m e = cc
matches_root_sound (some c) root_text {r} m e =
    ap some (bytes_eq_sound c r (ok-injective (rw e at m)))

swapped : {f : Bytes → Bytes} {P Q : Bytes → Type 0} → CollisionIn f P Q → CollisionIn f Q P
swapped (x, y, p, q, differ, e) = (y, x, q, p, (λ same. differ (sym same)), sym e)

found_above : {A B C : Type 0} → (B → C) → A ⊎ B → A ⊎ C
found_above f (inl a) = inl a
found_above f (inr b) = inr (f b)

join :
    {A B : Type 0} (k : ℕ) (xs ys : List B)
    → (take k xs ≡ take k ys) ⊎ A
    → (drop k xs ≡ drop k ys) ⊎ A
    → (xs ≡ ys) ⊎ A
join k xs ys (inr found) r = inr found
join k xs ys (inl left) (inr found) = inr found
join k xs ys (inl left) (inl right) =
    inl (sym (take-append-drop k xs) ∙ ap₂ (λ a b. a ++ b) left right ∙ take-append-drop k ys)

module _ (sha256 : Bytes → Bytes) (digest : IsDigest sha256) where
  All-IsHash : (leaves : List String) → All IsHash (map (leaf_hash sha256) leaves)
  unfolding leaf_hash
  All-IsHash [] = tt
  All-IsHash (l ∷ leaves) = (digest.size _, All-IsHash leaves)

  leaf-IsHash : (leaf : String) → IsHash (leaf_hash sha256 leaf)
  unfolding leaf_hash
  leaf-IsHash leaf = digest.size _

  verify_path_sound :
      (hs : List Bytes) (n : Bytes) (i : ℕ) (proof : List Bytes)
      → IsHash n
      → All IsHash hs
      → i < length hs
      → verify_path sha256 n i (length hs) proof ≡ some (root sha256 hs)
      → (get_elem? hs i ≡ some n)
        ⊎ CollisionIn sha256
            (HashedByWalk sha256 (reverse proof) n i (length hs))
            (HashedByRoot sha256 hs)
  unfolding verify_path
  verify_path_sound hs n i proof hn ph lt e =
      verify_down_sound sha256 digest (reverse proof) hs n i hn ph lt e

  -- Two lists of hashes of one length with one root are equal, or a collision is found.
  root-Collision :
      (f : ℕ) (hs gs : List Bytes)
      → length hs ≤ f
      → length hs ≡ length gs
      → All IsHash hs
      → All IsHash gs
      → root sha256 hs ≡ root sha256 gs
      → (hs ≡ gs) ⊎ CollisionIn sha256 (HashedByRoot sha256 hs) (HashedByRoot sha256 gs)
  root-Collision f [] [] l n p q e = inl refl
  root-Collision f [] (g ∷ gs) l n p q e = absurd (omega arith)
  root-Collision f (h ∷ hs) [] l n p q e = absurd (omega arith)
  root-Collision f (h ∷ []) (g ∷ []) l n p q e =
      inl (ap (λ (x : Bytes). x ∷ []) (unfold root root_fuel in e))
  root-Collision f (h ∷ []) (g ∷ g' ∷ gs) l n p q e = absurd (omega arith)
  root-Collision f (h ∷ h' ∷ hs) (g ∷ []) l n p q e = absurd (omega arith)
  root-Collision zero (h ∷ h' ∷ hs) (g ∷ g' ∷ gs) l n p q e = absurd (omega arith)
  root-Collision (suc f) (h ∷ h' ∷ hs) (g ∷ g' ∷ gs) l n p q e =
      let xs = h ∷ h' ∷ hs in
      let ys = g ∷ g' ∷ gs in
      let k = split_at (length xs) in
      let (k_pos, k_lt) = split_at_bounds (length xs) (omega arith) in
      let lx = length-take k xs in
      let ly = length-take k ys in
      let rx = length-drop k xs in
      let ry = length-drop k ys in
      let nodes : node sha256 (root sha256 (take k xs)) (root sha256 (drop k xs))
          ≡ node sha256 (root sha256 (take k ys)) (root sha256 (drop k ys)) =
        sym (root-node sha256 xs (omega arith))
        ∙ e
        ∙ root-node sha256 ys (omega arith)
        ∙ ap
            (λ m.
              node sha256 (root sha256 (take (split_at m) ys)) (root sha256 (drop (split_at m) ys)))
            (sym n) in
      let two : 1 < length ys = omega arith in
      elim (node-CollisionIn sha256 (root sha256 (take k xs)) (root sha256 (drop k xs))
        (root sha256 (take k ys)) (root sha256 (drop k ys)) (at_root xs (omega arith))
        (subst
          (λ m.
            HashedByRoot sha256 ys
              (0x01 ∷ (root sha256 (take (split_at m) ys) ++ root sha256 (drop (split_at m) ys))))
          (sym n) (at_root ys two))
        nodes) [
          | inr found ↦ inr found
          | inl same ↦
              let sizes =
                root-IsHash sha256 digest (take k xs) (omega arith) (All-take IsHash k xs p)
                ∙ sym (
                    root-IsHash sha256 digest (take k ys) (omega arith) (All-take IsHash k ys q)) in
              let (left, right) =
                append_inj (root sha256 (take k xs)) (root sha256 (drop k xs))
                  (root sha256 (take k ys)) (root sha256 (drop k ys)) same sizes in
              join k xs ys
                (found_above
                  (among_more (λ x w. in_left xs x (omega arith) w)
                    (λ y w.
                      in_left ys y two
                        (subst (λ m. HashedByRoot sha256 (take (split_at m) ys) y) n w)))
                  (root-Collision f (take k xs) (take k ys) (omega arith) (omega arith)
                    (All-take IsHash k xs p) (All-take IsHash k ys q) left))
                (found_above
                  (among_more (λ x w. in_right xs x (omega arith) w)
                    (λ y w.
                      in_right ys y two
                        (subst (λ m. HashedByRoot sha256 (drop (split_at m) ys) y) n w)))
                  (root-Collision f (drop k xs) (drop k ys) (omega arith) (omega arith)
                    (All-drop IsHash k xs p) (All-drop IsHash k ys q) right))
        ]

  -- For a digest of 32 bytes: two logs of one length with the same Merkle root have the same leaves in the same order, or SHA-256 gives
  -- one hash for two different inputs, one that it is given for the first root and one that it is given for the second.
  pub merkle_root-Collision :
      (ls ms : List String)
      → length ls ≡ length ms
      → merkle_root sha256 ls ≡ merkle_root sha256 ms
      → (ls ≡ ms) ⊎ CollisionIn sha256 (HashedByLog sha256 ls) (HashedByLog sha256 ms)
  unfolding merkle_root
  merkle_root-Collision ls ms n e =
      let hs = map (leaf_hash sha256) ls in
      let gs = map (leaf_hash sha256) ms in
      let same : root sha256 hs ≡ root sha256 gs =
        hex-injective (root sha256 hs) (root sha256 gs)
          (root-bytes sha256 digest hs (All-leaf_hash sha256 digest ls))
          (root-bytes sha256 digest gs (All-leaf_hash sha256 digest ms))
          (append_cancel_left "sha256:" _ _ e) in
      let sizes : length hs ≡ length gs =
        length-map (leaf_hash sha256) ls ∙ n ∙ sym (length-map (leaf_hash sha256) ms) in
      elim (root-Collision (length hs) hs gs (omega arith) sizes (All-IsHash ls) (All-IsHash ms)
        same) [
          | inr found ↦ inr (among_more (λ x w. inr w) (λ y w. inr w) found)
          | inl hashes ↦
              found_above (among_more (λ x w. inl w) (λ y w. inl w))
                (leaf_hashes-CollisionIn sha256 ls ms hashes)
        ]

  -- For a digest of 32 bytes: what `verify_inclusion` accepts against the root of a log, at a position and the size of the log, whatever the
  -- proof is, is the leaf at that position, or SHA-256 gives one hash for two different inputs, one that it is given for the root of the log
  -- and one that it is given in the check of the proof.
  pub verify_inclusion_sound :
      (leaves : List String) (leaf : String) (i : ℕ) (proof : List String)
      → verify_inclusion sha256 leaf i (length leaves) proof (merkle_root sha256 leaves) ≡ ok true
      → (get_elem? leaves i ≡ some leaf)
        ⊎ CollisionIn sha256
            (HashedByLog sha256 leaves)
            (HashedByCheck sha256 leaf i (length leaves) proof)
  unfolding verify_inclusion merkle_root
  verify_inclusion_sound leaves leaf i proof e =
      let hs = map (leaf_hash sha256) leaves in
      let root_text = merkle_root sha256 leaves in
      let n = leaf_hash sha256 leaf in
      elim (Bool-cases (ltb i (length leaves))) [
        | inr outside ↦ absurd (ok_false (rw outside at e))
        | inl inside ↦
            let (bs, parsed, matched) = >>=-eq-ok (from_hex_all proof) _ (rw inside at e) in
            let computed : verify_path sha256 n i (length leaves) bs ≡ some (root sha256 hs) =
              matches_root_sound (verify_path sha256 n i (length leaves) bs) root_text matched (
                root_bytes-root (root sha256 hs)
                  (root-bytes sha256 digest hs (All-leaf_hash sha256 digest leaves))) in
            elim (verify_path_sound hs n i bs (leaf-IsHash leaf) (All-IsHash leaves)
              (rw (length-map (leaf_hash sha256) leaves) (ltb→lt _ _ inside))
              (subst (λ m. verify_path sha256 n i m bs ≡ some (root sha256 hs))
                (sym (length-map (leaf_hash sha256) leaves)) computed)) [
                  | inr found ↦ inr (
                      among_more (λ x w. inr w)
                        (λ y w. inr (
                          bs,
                          parsed,
                          subst (λ m. HashedByWalk sha256 (reverse bs) n i m y)
                              (length-map (leaf_hash sha256) leaves) w,
                        ))
                        (swapped found))
                  | inl there ↦
                      let (l, at_i, same) = get_elem?-map_inv (leaf_hash sha256) leaves i there in
                      elim (leaf_hash-CollisionIn sha256 {P = HashedByLog sha256 leaves}
                        {Q = HashedByCheck sha256 leaf i (length leaves) proof} l leaf
                        (inl (l, get_elem?-In leaves i at_i, refl)) (inl refl) same) [
                          | inr found ↦ inr found
                          | inl equal ↦ inl (at_i ∙ ap some equal)
                        ]
                ]
      ]
