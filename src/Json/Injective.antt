-- ===== src/Json/Injective.antt =====
-- The dictionaries that have given canonical bytes (src/approvo/canonical.py).
use approvo.Base.{String, Bytes, ◌≡◌, refl, ap, ◌∙◌, sym, List, [], ◌∷◌, ◌++◌, append_assoc, drop}
use approvo.Result.{ok, >>=-eq-ok, ok-injective}
use approvo.Json.{Value, dict, Fields}
use approvo.Json.Canonical.{
  quoted, sort_entries, entry_bytes, comma_entries, join_entries, dumps, entries, canonical_bytes,
  check_value,
}
use approvo.Json.Scan.{Passes, AllPass, Ends, Passes-cut, AllPass-sort_entries, AllPass-entries}
use approvo.Json.Atoms.{quoted-cut}
use mathlib.Core.Path.{ap₂}

entry_bytes-cut :
    (e f : String × Bytes) (r s : Bytes)
    → Passes e.1
    → Passes f.1
    → Ends r
    → Ends s
    → entry_bytes e ++ r ≡ entry_bytes f ++ s
    → (e ≡ f) × (r ≡ s)
unfolding entry_bytes
entry_bytes-cut e f r s pe pf hr hs h =
    let h' : quoted e.0 ++ b':' ∷ (e.1 ++ r) ≡ quoted f.0 ++ b':' ∷ (f.1 ++ s) =
      sym (append_assoc (quoted e.0) (b':' ∷ e.1) r)
      ∙ h
      ∙ append_assoc (quoted f.0) (b':' ∷ f.1) s in
    let (key, after) = quoted-cut e.0 f.0 (b':' ∷ (e.1 ++ r)) (b':' ∷ (f.1 ++ s)) h' in
    let (value, rest) = Passes-cut e.1 f.1 r s pe pf hr hs (ap (drop 1) after) in
    (ap₂ (λ (k : String) (v : Bytes). let kv : String × Bytes = (k, v) in kv) key value, rest)

Ends-comma_entries : (es : List (String × Bytes)) (r : Bytes) → Ends (comma_entries es ++ b'}' ∷ r)
unfolding comma_entries
Ends-comma_entries [] r = refl
Ends-comma_entries (e ∷ es) r = refl

comma_entries-cut :
    (es fs : List (String × Bytes)) (r s : Bytes)
    → AllPass es
    → AllPass fs
    → comma_entries es ++ b'}' ∷ r ≡ comma_entries fs ++ b'}' ∷ s
    → es ≡ fs
unfolding comma_entries
comma_entries-cut [] [] r s p q h = refl
comma_entries-cut [] (f ∷ fs) r s p q h = cc
comma_entries-cut (e ∷ es) [] r s p q h = cc
comma_entries-cut (e ∷ es) (f ∷ fs) r s p q h =
    let x = comma_entries es ++ b'}' ∷ r in
    let y = comma_entries fs ++ b'}' ∷ s in
    let h' : entry_bytes e ++ x ≡ entry_bytes f ++ y =
      sym (append_assoc (entry_bytes e) (comma_entries es) (b'}' ∷ r))
      ∙ ap (drop 1) h
      ∙ append_assoc (entry_bytes f) (comma_entries fs) (b'}' ∷ s) in
    let (first, rest) =
      entry_bytes-cut e f x y p.0 q.0 (Ends-comma_entries es r) (Ends-comma_entries fs s) h' in
    ap₂ (λ a l. a ∷ l) first (comma_entries-cut es fs r s p.1 q.1 rest)

join_entries-cut :
    (es fs : List (String × Bytes)) (r s : Bytes)
    → AllPass es
    → AllPass fs
    → join_entries es ++ b'}' ∷ r ≡ join_entries fs ++ b'}' ∷ s
    → es ≡ fs
unfolding join_entries comma_entries
join_entries-cut [] [] r s p q h = refl
join_entries-cut [] (f ∷ fs) r s p q h = cc
join_entries-cut (e ∷ es) [] r s p q h = cc
join_entries-cut (e ∷ es) (f ∷ fs) r s p q h =
    comma_entries-cut (e ∷ es) (f ∷ fs) r s p q (ap (λ t. b',' ∷ t) h)

-- Equal canonical bytes of two dictionaries: the sorted entries, each a key with the bytes of its value,
-- are equal.
pub dumps-dict :
    (fs gs : Fields)
    → dumps (dict fs) ≡ dumps (dict gs)
    → sort_entries (entries fs) ≡ sort_entries (entries gs)
unfolding dumps
dumps-dict fs gs h =
    join_entries-cut (sort_entries (entries fs)) (sort_entries (entries gs)) [] []
      (AllPass-sort_entries (entries fs) (AllPass-entries fs))
      (AllPass-sort_entries (entries gs) (AllPass-entries gs)) (ap (drop 1) h)

pub canonical_bytes-dumps : (v : Value) {bs : Bytes} → canonical_bytes v ≡ ok bs → dumps v ≡ bs
unfolding canonical_bytes
canonical_bytes-dumps v h = let (_, _, made) = >>=-eq-ok (check_value v) _ h in ok-injective made
