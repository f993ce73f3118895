-- ===== src/Policies/Rules.antt =====
-- app/detection.py, validate_rule.
use sentinel_auth.Prelude.{
  ℕ, String, Bool, true, false, not, ◌&&◌, ◌||◌, Option, none, some, List, [], ◌∷◌, if◌then◌else◌,
  ◌==◌, nat_eq, string_eq, is_some, contains, leb,
}
use sentinel_auth.Core.{Result, ok, raise, unhandled}
use sentinel_auth.Policies.Config.{
  Arithmetic, Json, Fields, lookup, item_count, Problem, not_a_number, outside_unit, not_an_object,
  missing_field, unknown_feature, unsupported_operator, range_value, in_value, in_unit,
}

abbrev pub allowed_features : List String
allowed_features =
    "hour_of_day" ∷ "fail_count_24h" ∷ "ip_change_rate_7d" ∷ "new_device"
    ∷ "average_login_interval_seconds" ∷ "deviation_score" ∷ []

abbrev pub allowed_operators : List String
allowed_operators = "==" ∷ "!=" ∷ ">" ∷ ">=" ∷ "<" ∷ "<=" ∷ "in" ∷ "between" ∷ "not_between" ∷ []

abbrev range_operators : List String
range_operators = "between" ∷ "not_between" ∷ []

abbrev required_fields : List String
required_fields = "name" ∷ "field" ∷ "operator" ∷ "value" ∷ "weight" ∷ "score" ∷ []

module _ (A : Arithmetic) where
  abbrev first_missing : List String → Fields A.Number → Option Problem
  first_missing [] rule = none
  first_missing (key ∷ keys) rule =
      if is_some (lookup key rule) then first_missing keys rule else some (missing_field key)

  -- `value in a_frozenset`: a list or an object is not hashable, which raises TypeError.
  abbrev pub member : Option (Json A.Number) → List String → Result Bool
  member (some (Json.text s)) names = ok (contains names s)
  member (some (Json.array _)) names = raise (unhandled "TypeError")
  member (some (Json.object _)) names = raise (unhandled "TypeError")
  member _ names = ok false

  abbrev is_text : String → Option (Json A.Number) → Bool
  is_text s (some (Json.text t)) = t == s
  is_text s _ = false

  -- The length of a list; none when the value is no list.
  abbrev list_length : Option (Json A.Number) → Option ℕ
  list_length (some (Json.array items)) = some (item_count items)
  list_length _ = none

  abbrev has_length : (ℕ → Bool) → Option ℕ → Bool
  has_length p none = false
  has_length p (some n) = p n

  abbrev unit_problem : String → Option (Json A.Number) → Option Problem
  unit_problem key (some (Json.number x)) =
      if in_unit A x then none else some (outside_unit "rule" key)
  unit_problem key _ = some (not_a_number "rule" key)

  abbrev or_problem : Option Problem → Option Problem → Option Problem
  or_problem none q = q
  or_problem (some p) q = some p

  -- The checks after those of the field and of the operator.
  abbrev pub check_values : Fields A.Number → Option Problem
  check_values rule =
      let operator = lookup "operator" rule in
      let size = list_length (lookup "value" rule) in
      if (is_text "between" operator || is_text "not_between" operator)
        && not (has_length (λ n. n == 2) size)
      then some range_value
      else (if is_text "in" operator && not (has_length (λ n. leb 1 n) size)
          then some in_value
          else or_problem (unit_problem "weight" (lookup "weight" rule))
              (unit_problem "score" (lookup "score" rule)))

  abbrev check_operator : Fields A.Number → Result Bool → Result (Option Problem)
  check_operator rule (ok true) = ok (check_values rule)
  check_operator rule (ok false) = ok (some unsupported_operator)
  check_operator rule (raise e) = raise e

  abbrev check_feature : Fields A.Number → Result Bool → Result (Option Problem)
  check_feature rule (ok true) =
      check_operator rule (member (lookup "operator" rule) allowed_operators)
  check_feature rule (ok false) = ok (some unknown_feature)
  check_feature rule (raise e) = raise e

  abbrev check_fields : Fields A.Number → Option Problem → Result (Option Problem)
  check_fields rule (some p) = ok (some p)
  check_fields rule none = check_feature rule (member (lookup "field" rule) allowed_features)

  unfoldable pub validate_rule : Json A.Number → Result (Option Problem)
  validate_rule (Json.object rule) = check_fields rule (first_missing required_fields rule)
  validate_rule _ = ok (some (not_an_object "rule"))
