-- ===== src/Crypto/Resolver.antt =====
-- src/approvo/crypto/resolver.py. A template is given as `str.format` reads it, as texts and names in braces; format specifications,
-- conversions and attribute access in a template are not modelled.
use approvo.Base.{String, append_text, Option, none, some, List, [], ◌∷◌, Dict, lookup}
use approvo.Result.{Result, ok, or_raise, key_resolution_error, ◌>>=◌}

pub data SigningPurpose : Type 0 where
  decision checkpoint : SigningPurpose

abbrev pub purpose_value : SigningPurpose → String
purpose_value decision = "decision"
purpose_value checkpoint = "checkpoint"

pub record SigningContext : Type 0 where
  pub log_id : String
  pub purpose : SigningPurpose
  pub kind : Option String
  pub policy_id : Option String
  pub approver_id : Option String

pub data Piece : Type 0 where
  literal : String → Piece
  placeholder : String → Piece

abbrev pub Template : Type 0
Template = List Piece

-- `ctx.kind or ""`
abbrev or_blank : Option String → String
or_blank none = ""
or_blank (some s) = s

abbrev format_fields : SigningContext → Dict String
format_fields ctx =
    ("log_id", ctx.log_id)
    ∷ ("purpose", purpose_value ctx.purpose)
    ∷ ("kind", or_blank ctx.kind)
    ∷ ("policy_id", or_blank ctx.policy_id)
    ∷ ("approver_id", or_blank ctx.approver_id)
    ∷ []

-- `tmpl.format(...)`, with the `KeyError` of a name that is not given turned into the resolver's error.
unfoldable pub format : Dict String → Template → Result String
format given [] = ok ""
format given (literal s ∷ t) = do rest ← format given t; ok (append_text s rest)
format given (placeholder name ∷ t) = do
  value ← or_raise (lookup name given) key_resolution_error
  rest ← format given t
  ok (append_text value rest)

-- The mappings are dictionaries by the purpose's text, since a `SigningPurpose` is a `str`.
pub data Resolver : Type 0 where
  static_keys : Dict String → Resolver
  templates : Dict Template → Resolver
  custom : (SigningContext → Result String) → Resolver

unfoldable pub resolve : Resolver → SigningContext → Result String
unfolding format
resolve (static_keys mapping) ctx =
    or_raise (lookup (purpose_value ctx.purpose) mapping) key_resolution_error
resolve (templates mapping) ctx = do
  tmpl ← or_raise (lookup (purpose_value ctx.purpose) mapping) key_resolution_error
  format (format_fields ctx) tmpl
resolve (custom f) ctx = f ctx
