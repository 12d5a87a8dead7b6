-- ===== src/Crypto/KeyProvider/Composite.antt =====
-- `CompositeKeyProvider` of src/approvo/crypto/keyprovider.py.
use approvo.Base.{
  ℕ, String, contains, ◌≡◌, refl, ap, ◌∙◌, Bool, true, false, Option, none, some, List, [], ◌∷◌,
  ◌++◌, map, any, Dict, lookup, insert, lookup-insert, key, if◌then◌else◌, ◌==◌, arith,
}
use approvo.Result.{Result, ok, err, or_raise, key_provider_error, not_implemented, ◌>>=◌}
use approvo.Crypto.KeyRefs.{parse_key_ref}
use approvo.Crypto.KeyProvider.{KeyDescriptor, KeyProvider}

-- The inner loop of `__init__`: one provider under each of its schemes.
unfoldable pub under_schemes : KeyProvider → List String → Dict KeyProvider → Dict KeyProvider
under_schemes p [] d = d
under_schemes p (s ∷ ss) d = under_schemes p ss (insert s p d)

unfoldable pub register_all : List KeyProvider → Dict KeyProvider → Dict KeyProvider
register_all [] d = d
register_all (p ∷ ps) d = register_all ps (under_schemes p p.schemes d)

-- `_by_scheme` after `__init__`
abbrev pub by_scheme : List KeyProvider → Dict KeyProvider
by_scheme ps = register_all ps []

unfoldable pub route : Dict KeyProvider → String → Result KeyProvider
route d key_ref = do parsed ← parse_key_ref key_ref; or_raise (lookup parsed.0 d) key_provider_error

-- `dict.fromkeys(...)` over objects: the first of each
abbrev distinct_from : List ℕ → List KeyProvider → List KeyProvider
distinct_from seen [] = []
distinct_from seen (p ∷ ps) =
    let again = any (λ n. n == p.identity) seen in
    let rest = distinct_from (p.identity ∷ seen) ps in if again then rest else p ∷ rest

-- `try: out.extend(...) except NotImplementedError: continue`
abbrev or_nothing : Result (List KeyDescriptor) → Result (List KeyDescriptor)
or_nothing (ok ds) = ok ds
or_nothing (err not_implemented) = ok []
or_nothing (err e) = err e

unfoldable pub list_all : List KeyProvider → Result (List KeyDescriptor)
list_all [] = ok []
list_all (p ∷ ps) = do here ← or_nothing p.list_keys; rest ← list_all ps; ok (here ++ rest)

abbrev providers_of : Dict KeyProvider → List KeyProvider
providers_of d = map (λ (e : String × KeyProvider). e.1) d

unfoldable pub composite_provider : ℕ → List KeyProvider → KeyProvider
composite_provider identity ps = record {
  identity = identity;
  schemes = map key (by_scheme ps);
  get_signer = λ ref. route (by_scheme ps) ref >>= λ p. p.get_signer ref;
  get_public_key = λ ref. route (by_scheme ps) ref >>= λ p. p.get_public_key ref;
  list_keys = list_all (distinct_from [] (providers_of (by_scheme ps)));
  self_test = λ ref. route (by_scheme ps) ref >>= λ p. p.self_test ref;
}

-- The last provider of the list that names the scheme.
abbrev pub last_with : String → List KeyProvider → Option KeyProvider
last_with s [] = none
last_with s (p ∷ ps) = elim (last_with s ps) [
  | some later ↦ some later
  | none ↦ if contains p.schemes s then some p else none
]

abbrev or_else : Option KeyProvider → Option KeyProvider → Option KeyProvider
or_else (some p) o = some p
or_else none o = o

lookup-under_schemes :
    (p : KeyProvider) (ss : List String) (s : String) (d : Dict KeyProvider)
    → lookup s (under_schemes p ss d) ≡ (if contains ss s then some p else lookup s d)
unfolding under_schemes
lookup-under_schemes p [] s d = refl
lookup-under_schemes p (t ∷ ss) s d =
    ground (arith, lookup-under_schemes p ss s (insert t p d), lookup-insert t s p d)

lookup-register_all :
    (ps : List KeyProvider) (s : String) (d : Dict KeyProvider)
    → lookup s (register_all ps d) ≡ or_else (last_with s ps) (lookup s d)
unfolding register_all
lookup-register_all [] s d = refl
lookup-register_all (p ∷ ps) s d =
    lookup-register_all ps s (under_schemes p p.schemes d)
    ∙ ap (or_else (last_with s ps)) (lookup-under_schemes p p.schemes s d)
    ∙ merge (last_with s ps) (contains p.schemes s)
  where
    merge :
        (o : Option KeyProvider) (b : Bool)
        → or_else o (if b then some p else lookup s d)
          ≡ or_else
              (elim o [ some later ↦ some later | none ↦ if b then some p else none ])
              (lookup s d)
    merge (some q) b = refl
    merge none true = refl
    merge none false = refl

-- A reference is routed by its scheme to the last provider of the list that names the scheme, and is refused with a `KeyProviderError`
-- where there is none.
pub route_lem :
    (ps : List KeyProvider) (key_ref : String)
    → route (by_scheme ps) key_ref
      ≡ (parse_key_ref key_ref >>= λ parsed. or_raise (last_with parsed.0 ps) key_provider_error)
unfolding route lookup
route_lem ps key_ref = by_parse (parse_key_ref key_ref)
  where
    same : (s : String) → lookup s (by_scheme ps) ≡ last_with s ps
    same s = lookup-register_all ps s [] ∙ drop_none (last_with s ps)
      where
        drop_none : (o : Option KeyProvider) → or_else o none ≡ o
        drop_none (some p) = refl
        drop_none none = refl

    by_parse :
        (r : Result (String × String))
        → (r >>= λ parsed. or_raise (lookup parsed.0 (by_scheme ps)) key_provider_error)
          ≡ (r >>= λ parsed. or_raise (last_with parsed.0 ps) key_provider_error)
    by_parse (err e) = refl
    by_parse (ok parsed) = ap (λ o. or_raise o key_provider_error) (same parsed.0)

>>=-assoc :
    {A B C : Type 0} (m : Result A) (f : A → Result B) (g : B → Result C)
    → ((m >>= f) >>= g) ≡ (m >>= λ a. f a >>= g)
>>=-assoc (ok a) f g = refl
>>=-assoc (err e) f g = refl

-- What the last provider that names the reference's scheme answers.
abbrev pub by_last : {A : Type 0} → List KeyProvider → String → (KeyProvider → Result A) → Result A
by_last ps ref ask =
    parse_key_ref ref >>= λ parsed. or_raise (last_with parsed.0 ps) key_provider_error >>= ask

ask_routed :
    {A : Type 0} (ps : List KeyProvider) (ref : String) (ask : KeyProvider → Result A)
    → (route (by_scheme ps) ref >>= ask) ≡ by_last ps ref ask
ask_routed ps ref ask =
    ap (λ r. r >>= ask) (route_lem ps ref)
    ∙ >>=-assoc (parse_key_ref ref) (λ parsed. or_raise (last_with parsed.0 ps) key_provider_error)
        ask

-- For any list of providers, the composite answers `get_signer`, `get_public_key` and `self_test` for a reference as the last provider of
-- the list whose schemes have the reference's scheme; it raises a `KeyProviderError` where no provider has it, and what `parse_key_ref`
-- raises for a reference that cannot be read.
pub composite_provider_routes :
    (identity : ℕ) (ps : List KeyProvider) (ref : String)
    → ((composite_provider identity ps).get_signer ref ≡ by_last ps ref (λ p. p.get_signer ref))
      × ((composite_provider identity ps).get_public_key ref
          ≡ by_last ps ref (λ p. p.get_public_key ref))
      × ((composite_provider identity ps).self_test ref ≡ by_last ps ref (λ p. p.self_test ref))
unfolding composite_provider
composite_provider_routes identity ps ref = (
  ask_routed ps ref (λ p. p.get_signer ref),
  ask_routed ps ref (λ p. p.get_public_key ref),
  ask_routed ps ref (λ p. p.self_test ref),
)
