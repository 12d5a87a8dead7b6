-- ===== src/Tests/Log.antt =====
-- Examples on logs, Merkle trees and checkpoints.
use approvo.Base.{
  ℤ, pos, String, hex, from_hex, bytes_eq, utf8, true, Collision, CollisionIn, ◌≡◌, refl, ◌⊎◌, ◌↔◌,
  none, some, List, [], ◌∷◌, ◌++◌, get_elem?, take,
}
use approvo.Result.{ok, err, seq_gap}
use approvo.Json.{end}
use approvo.Hash.{zero_hash, canonical_hash, sha256_hex}
use approvo.Models.Entry.{LedgerEntry, core_dict}
use approvo.Json.Canonical.{canonical_bytes}
use approvo.Chain.{before, next_entry, verify_segment}
use approvo.Chain.Verify.{IsChain, append-next_entry, verify_segment_iff}
use approvo.Chain.Tamper.{SameEntries, verify_segment-tamper}
use approvo.Chain.Segments.{verify_segment-append, verify_segment_same_seq}
use approvo.Merkle.{merkle_root, inclusion_proof, verify_inclusion, node, split_at, root_bytes}
use approvo.Merkle.Hashed.{HashedByLog, HashedByCheck}
use approvo.Merkle.Complete.{inclusion_proof-verifies}
use approvo.Merkle.Binding.{verify_inclusion_sound, merkle_root-Collision}
use approvo.Checkpoint.{build_checkpoint, verify_consistency}
use approvo.Checkpoint.Consistency.{verify_consistency-append, verify_consistency_sound}
use approvo.Tests.Data.{toy_digest, toy_digest-IsDigest, blank, ok_or}

abbrev first : LedgerEntry
first = ok_or (next_entry toy_digest none "note" end "i" (some "r")) blank

abbrev second : LedgerEntry
second = ok_or (next_entry toy_digest (some first) "note" end "ii" none) blank

append-next_entry_example : IsChain toy_digest 0 zero_hash (first ∷ [])
unfolding next_entry canonical_hash canonical_bytes
append-next_entry_example = append-next_entry toy_digest [] "note" end "i" (some "r") tt refl

two_pass :
    verify_segment toy_digest (first ∷ second ∷ []) 0 zero_hash ≡ ok (pos 1, second.entry_hash)
unfolding next_entry verify_segment canonical_hash canonical_bytes hex
two_pass = refl

verify_segment-tamper_example :
    (SameEntries (first ∷ second ∷ []) (first ∷ second ∷ []) × (zero_hash ≡ zero_hash))
    ⊎ Collision (sha256_hex toy_digest)
verify_segment-tamper_example =
    verify_segment-tamper toy_digest (first ∷ second ∷ []) (first ∷ second ∷ []) 0 zero_hash
      zero_hash two_pass two_pass

verify_segment_iff_example :
    (verify_segment toy_digest (first ∷ second ∷ []) 0 zero_hash ≡ ok (before 2, second.entry_hash))
    ↔ (IsChain toy_digest 0 zero_hash (first ∷ second ∷ [])
        × ◌≡◌ {A = ℤ × String} (before 2, second.entry_hash) (before 2, second.entry_hash))
verify_segment_iff_example =
    verify_segment_iff toy_digest (first ∷ second ∷ []) 0 zero_hash (before 2, second.entry_hash)

one_passes : verify_segment toy_digest (first ∷ []) 0 zero_hash ≡ ok (before 1, first.entry_hash)
unfolding next_entry verify_segment canonical_hash canonical_bytes hex
one_passes = refl

verify_segment-append_example :
    (verify_segment toy_digest (first ∷ second ∷ []) 0 zero_hash ≡ ok (before 2, second.entry_hash))
    ↔ (verify_segment toy_digest (second ∷ []) 1 first.entry_hash
        ≡ ok (before 2, second.entry_hash))
verify_segment-append_example =
    verify_segment-append toy_digest (first ∷ []) (second ∷ []) 0 zero_hash 1 first.entry_hash
      one_passes

verify_segment_same_seq_example :
    verify_segment toy_digest (second ∷ []) 0 first.entry_hash ≡ err seq_gap
verify_segment_same_seq_example =
    verify_segment_same_seq toy_digest first [] [] second 0 zero_hash 0 first.entry_hash two_pass
      one_passes

first_bytes : canonical_bytes (core_dict first) ≡ ok (ok_or (canonical_bytes (core_dict first)) [])
unfolding canonical_bytes next_entry canonical_hash
first_bytes = refl

abbrev leaves : List String
leaves = "a" ∷ "bb" ∷ "ccc" ∷ []

inclusion_proof-verifies_example :
    (proof : List String) × (inclusion_proof toy_digest leaves 1 ≡ ok proof)
    × (verify_inclusion toy_digest "bb" 1 3 proof (merkle_root toy_digest leaves) ≡ ok true)
inclusion_proof-verifies_example =
    inclusion_proof-verifies toy_digest toy_digest-IsDigest leaves 1 "bb" refl

bb_is_in :
    verify_inclusion toy_digest "bb" 1 3
      (ok_or (inclusion_proof toy_digest leaves 1) [])
      (merkle_root toy_digest leaves)
    ≡ ok true
unfolding verify_inclusion inclusion_proof merkle_root hex from_hex root_bytes utf8 node split_at
    bytes_eq
bb_is_in = refl

verify_inclusion_sound_example :
    (get_elem? leaves 1 ≡ some "bb")
    ⊎ CollisionIn toy_digest
        (HashedByLog toy_digest leaves)
        (HashedByCheck toy_digest "bb" 1 3 (ok_or (inclusion_proof toy_digest leaves 1) []))
verify_inclusion_sound_example =
    verify_inclusion_sound toy_digest toy_digest-IsDigest leaves "bb" 1
      (ok_or (inclusion_proof toy_digest leaves 1) []) bb_is_in

merkle_root-Collision_example :
    (leaves ≡ "x" ∷ "bb" ∷ "ccc" ∷ [])
    ⊎ CollisionIn toy_digest
        (HashedByLog toy_digest leaves)
        (HashedByLog toy_digest ("x" ∷ "bb" ∷ "ccc" ∷ []))
unfolding merkle_root utf8
merkle_root-Collision_example =
    merkle_root-Collision toy_digest toy_digest-IsDigest leaves ("x" ∷ "bb" ∷ "ccc" ∷ []) refl refl

verify_consistency-append_example :
    verify_consistency toy_digest
      (build_checkpoint toy_digest leaves "default" "i" none)
      (leaves ++ "dddd" ∷ [])
    ≡ ok tt
verify_consistency-append_example =
    verify_consistency-append toy_digest leaves ("dddd" ∷ []) "default" "i" none

verify_consistency_sound_example :
    (take 3 ("x" ∷ "bb" ∷ "ccc" ∷ "dddd" ∷ []) ≡ leaves)
    ⊎ CollisionIn toy_digest
        (HashedByLog toy_digest (take 3 ("x" ∷ "bb" ∷ "ccc" ∷ "dddd" ∷ [])))
        (HashedByLog toy_digest leaves)
unfolding verify_consistency build_checkpoint merkle_root hex node split_at utf8
verify_consistency_sound_example =
    verify_consistency_sound toy_digest toy_digest-IsDigest leaves
      ("x" ∷ "bb" ∷ "ccc" ∷ "dddd" ∷ []) "default" "i" none refl
