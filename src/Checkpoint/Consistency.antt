-- ===== src/Checkpoint/Consistency.antt =====
-- Forks of a log against a pinned checkpoint: `build_checkpoint` and `verify_consistency` of src/approvo/checkpoint.py.
use approvo.Base.{
  String, str_eq, eq_iff, Bytes, CollisionIn, ◌≡◌, refl, ap, ◌∙◌, ◌⊎◌, inl, inr, Bool-cases, false,
  Option, List, [], ◌∷◌, ◌++◌, length, take, length-take, ltb, arith,
}
use approvo.Result.{ok}
use approvo.Merkle.{merkle_root}
use approvo.Merkle.Complete.{IsDigest}
use approvo.Merkle.Hashed.{HashedByLog}
use approvo.Merkle.Binding.{merkle_root-Collision}
use approvo.Models.Checkpoint.{Checkpoint}
use approvo.Checkpoint.{build_checkpoint, verify_consistency}

take-append : (xs ys : List String) → take (length xs) (xs ++ ys) ≡ xs
take-append [] ys = refl
take-append (x ∷ xs) ys = ap (λ l. x ∷ l) (take-append xs ys)

length-append : (xs ys : List String) → ltb (length (xs ++ ys)) (length xs) ≡ false
length-append [] ys = ground arith
length-append (x ∷ xs) ys = ground (arith, length-append xs ys)

module _ (sha256 : Bytes → Bytes) where
  -- A log that only grew since a checkpoint was built over it is consistent with the checkpoint.
  pub verify_consistency-append :
      (leaves more : List String) (log_id at_time : String) (prev : Option Checkpoint)
      → verify_consistency sha256
          (build_checkpoint sha256 leaves log_id at_time prev)
          (leaves ++ more)
        ≡ ok tt
  unfolding verify_consistency build_checkpoint
  verify_consistency-append leaves more log_id at_time prev =
      rw
        (
          length-append leaves more,
          take-append leaves more,
          (eq_iff (merkle_root sha256 leaves) (merkle_root sha256 leaves)).1 refl,
        )
        refl

  -- For a digest of 32 bytes: a log that is found consistent with a checkpoint built over other leaves begins with those leaves, or SHA-256
  -- gives one hash for two different inputs, one that it is given for the root of the log's beginning and one that it is given for the root
  -- of the checkpoint.
  pub verify_consistency_sound :
      IsDigest sha256
      → (leaves found : List String) (log_id at_time : String) (prev : Option Checkpoint)
      → verify_consistency sha256 (build_checkpoint sha256 leaves log_id at_time prev) found ≡ ok tt
      → (take (length leaves) found ≡ leaves)
        ⊎ CollisionIn sha256
            (HashedByLog sha256 (take (length leaves) found))
            (HashedByLog sha256 leaves)
  unfolding verify_consistency build_checkpoint
  verify_consistency_sound digest leaves found log_id at_time prev h =
      elim (Bool-cases (ltb (length found) (length leaves))) [
        | inl short ↦ absurd (ground (arith, short, h))
        | inr long ↦
            elim (Bool-cases (
              str_eq (merkle_root sha256 (take (length leaves) found))
                (merkle_root sha256 leaves))) [
                  | inr differs ↦ absurd (ground (arith, long, differs, h))
                  | inl same ↦
                      merkle_root-Collision sha256 digest (take (length leaves) found) leaves
                        (length-take (length leaves) found ∙ ground (arith, long))
                        ((eq_iff (merkle_root sha256 (take (length leaves) found))
                            (merkle_root sha256 leaves)).0
                          same)
                ]
      ]
