-- ===== src/Policy/Engine/Wording.antt =====
-- The lines of the trace of `evaluate` (src/approvo/policy/engine.py), and `PolicyResult.to_dict` of src/approvo/models.py.
use approvo.Base.{
  ℕ, zero, suc, ◌/◌, ◌%◌, String, append_text, hex_char, Bool, true, false, List, [], ◌∷◌, map, ltb,
  if◌then◌else◌,
}
use approvo.Json.{Value, str, dict, str_list, fields}
use approvo.Policy.Engine.{
  Status, pending, approved, rejected, expired, PolicyResult, Reason, other_body, not_allowed,
  requester, too_late, rejected_by, threshold_met, window_closed, approvals,
}

-- `str(n)`; the fuel is the number itself plus one.
abbrev number_fuel : ℕ → ℕ → String
number_fuel zero n = ""
number_fuel (suc fuel) n =
    let rest = number_fuel fuel (n / 10) in
    let digit = String.◌∷◌ (hex_char (n % 10)) String.[] in
    if ltb n 10 then digit else append_text rest digit

abbrev number_text : ℕ → String
number_text n = number_fuel (suc n) n

-- `', '.join(names)`
abbrev join_names : List String → String
join_names [] = ""
join_names (a ∷ []) = a
join_names (a ∷ b ∷ names) = append_text a (append_text ", " (join_names (b ∷ names)))

abbrev has_names : List String → Bool
has_names [] = false
has_names (a ∷ names) = true

-- `list_repr` is Python's text of a list of texts.
unfoldable pub wording : (List String → String) → Reason → String
wording list_repr (other_body a) = append_text a ": ignored (bound to a different request body)"
wording list_repr (not_allowed a) = append_text a ": ignored (not an allowed approver)"
wording list_repr (requester a) = append_text a ": ignored (separation of duties: requester)"
wording list_repr (too_late a) = append_text a ": ignored (decided after the window closed)"
wording list_repr (rejected_by names) = append_text "rejected by: " (join_names names)
wording list_repr (threshold_met n names) =
    append_text "threshold "
      (append_text (number_text n) (append_text " met by: " (join_names names)))
wording list_repr (window_closed t) =
    append_text "window closed at " (append_text t " without approval")
wording list_repr (approvals n threshold roles) = append_text (number_text n) (
    append_text "/" (
      append_text (number_text threshold) (
        append_text " approvals" (
          if has_names roles
          then append_text "; roles still required: " (list_repr roles)
          else ""))))

abbrev pub status_text : Status → String
status_text pending = "pending"
status_text approved = "approved"
status_text rejected = "rejected"
status_text expired = "expired"

unfoldable pub result_dict : (List String → String) → PolicyResult → Value
unfolding wording
result_dict list_repr r = dict (
    fields (
      ("status", str (status_text r.status))
      ∷ ("satisfied_by", str_list r.satisfied_by)
      ∷ ("reasons", str_list (map (wording list_repr) r.reasons))
      ∷ []))
