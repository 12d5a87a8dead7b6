-- ===== src/Models/Binding.antt =====
-- The bytes that the hash of an entry covers (`core_dict` of src/approvo/models.py), against its fields.
use approvo.Base.{
  ℕ, String, Bytes, ◌≡◌, refl, ap, sym, ◌∙◌, Option, none, some, List, [], get_or, pos,
}
use approvo.Result.{ok}
use approvo.Json.{int, str, dict, opt_str, fields}
use approvo.Json.Canonical.{dumps, sort_entries, canonical_bytes}
use approvo.Json.Atoms.{quoted-injective, decimal-injective}
use approvo.Json.Injective.{dumps-dict, canonical_bytes-dumps}
use approvo.Models.Entry.{LedgerEntry, core_dict, core_pairs}

dumps-str : (s t : String) → dumps (str s) ≡ dumps (str t) → s ≡ t
unfolding dumps
dumps-str s t h = quoted-injective s t h

dumps-nat : (m n : ℕ) → dumps (int (pos m)) ≡ dumps (int (pos n)) → m ≡ n
unfolding dumps
dumps-nat m n h = decimal-injective m n h

dumps-opt_str : (s t : Option String) → dumps (opt_str s) ≡ dumps (opt_str t) → s ≡ t
unfolding dumps
dumps-opt_str none none h = refl
dumps-opt_str none (some t) h = cc
dumps-opt_str (some s) none h = cc
dumps-opt_str (some s) (some t) h = ap some (quoted-injective s t h)

-- The bytes beside the key at a position of a sorted dictionary.
abbrev nth_bytes : ℕ → List (String × Bytes) → Bytes
nth_bytes i es = (get_or es i ("", [])).1

pub record SameContent (e f : LedgerEntry) : Type 0 where
  pub seq_eq : e.seq ≡ f.seq
  pub recorded_at_eq : e.recorded_at ≡ f.recorded_at
  pub prev_hash_eq : e.prev_hash ≡ f.prev_hash
  pub event_type_eq : e.event_type ≡ f.event_type
  pub request_id_eq : e.request_id ≡ f.request_id
  pub payload_eq : dumps (dict e.payload) ≡ dumps (dict f.payload)

-- Two entries whose hashed parts have the same canonical bytes have the same number, time, previous hash, type of event and request,
-- and payloads of the same canonical form.
pub core_dict-SameContent :
    (e f : LedgerEntry) {bs : Bytes}
    → canonical_bytes (core_dict e) ≡ ok bs
    → canonical_bytes (core_dict f) ≡ ok bs
    → SameContent e f
unfolding sort_entries dumps
core_dict-SameContent e f p q =
    let sorted =
      dumps-dict (fields (core_pairs e)) (fields (core_pairs f))
        (canonical_bytes-dumps _ p ∙ sym (canonical_bytes-dumps _ q)) in
    record {
      seq_eq = dumps-nat e.seq f.seq (ap (nth_bytes 5) sorted);
      recorded_at_eq = dumps-str e.recorded_at f.recorded_at (ap (nth_bytes 3) sorted);
      prev_hash_eq = dumps-str e.prev_hash f.prev_hash (ap (nth_bytes 2) sorted);
      event_type_eq = dumps-str e.event_type f.event_type (ap (nth_bytes 0) sorted);
      request_id_eq = dumps-opt_str e.request_id f.request_id (ap (nth_bytes 4) sorted);
      payload_eq = ap (nth_bytes 1) sorted;
    }
