-- ===== src/Chain.antt =====
-- src/approvo/chain.py: sealing the next entry of a log, and verifying a run of entries.
pub mod Verify
pub mod Segments
pub mod Tamper
use approvo.Base.{
  ℕ, zero, suc, ◌+◌, ℤ, pos, negsuc, String, str_eq, Bytes, Option, none, some, List, [], ◌∷◌, ◌==◌,
}
use approvo.Result.{Result, ok, err, guard, seq_gap, chain_broken, entry_hash_mismatch, ◌>>=◌, ◌>>◌}
use approvo.Json.{Fields}
use approvo.Hash.{zero_hash, canonical_hash}
use approvo.Models.Entry.{LedgerEntry, core_dict, sealed}

-- `(prev.seq + 1) if prev else 0`
abbrev pub seq_after : Option LedgerEntry → ℕ
seq_after none = 0
seq_after (some prev) = prev.seq + 1

-- `prev.entry_hash if prev else ZERO_HASH`
abbrev pub hash_after : Option LedgerEntry → String
hash_after none = zero_hash
hash_after (some prev) = prev.entry_hash

-- `seq - 1`
abbrev pub before : ℕ → ℤ
before zero = negsuc 0
before (suc n) = pos n

module _ (sha256 : Bytes → Bytes) where
  unfoldable pub next_entry :
      Option LedgerEntry → String → Fields → String → Option String → Result LedgerEntry
  unfolding sealed
  next_entry prev event_type payload at_time request_id = sealed sha256 (record {
    seq = seq_after prev;
    recorded_at = at_time;
    prev_hash = hash_after prev;
    event_type = event_type;
    request_id = request_id;
    payload = payload;
    entry_hash = "";
  })

  -- The loop of `verify_segment`, over its four variables.
  unfoldable pub verify_from : List LedgerEntry → ℕ → String → ℤ → String → Result (ℤ × String)
  verify_from [] seq prev_hash last_seq last_hash = ok (last_seq, last_hash)
  verify_from (e ∷ es) seq prev_hash last_seq last_hash = do
    guard (e.seq == seq) seq_gap
    guard (str_eq e.prev_hash prev_hash) chain_broken
    h ← canonical_hash sha256 (core_dict e)
    guard (str_eq e.entry_hash h) entry_hash_mismatch
    verify_from es (e.seq + 1) e.entry_hash (pos e.seq) e.entry_hash

  unfoldable pub verify_segment : List LedgerEntry → ℕ → String → Result (ℤ × String)
  unfolding verify_from
  verify_segment es first prev_hash = verify_from es first prev_hash (before first) prev_hash
