-- ===== src/Pipeline/Evaluation.antt =====
-- app/detection.py, evaluate_rules: the rules of a policy on the features of an attempt.
use Prim.Native.String.{◌++◌ as concat}
use sentinel_auth.Prelude.{
  ℕ, suc, String, Bool, true, false, not, ◌&&◌, Option, none, some, List, [], ◌∷◌, map,
  if◌then◌else◌, ◌==◌, string_eq, ◌≡◌, refl,
}
use sentinel_auth.Core.{Result, ok, raise, unhandled}
use sentinel_auth.Policies.Config.{
  Json, Items, nil, cons, Fields, end, field, Arithmetic, lookup, Problem, unknown_feature, in_unit,
}
use sentinel_auth.Policies.Rules.{validate_rule}
use sentinel_auth.Pipeline.Compare.{compare}
use sentinel_auth.Pipeline.Features.{Features, feature, min_one}

pub record RuleHit (N : Type 0) : Type 0 where
  pub rule_name : String
  pub score : N
  pub weight : N
  pub score_contribution : N
  pub reason : String

-- A rule that is skipped, under the name as the rule has it.
pub record RuleProblem (N : Type 0) : Type 0 where
  pub rule_name : Json N
  pub reason : String
  pub detail : Problem

pub record Evaluation (N : Type 0) : Type 0 where
  pub rule_score : N
  pub hits : List (RuleHit N)
  pub problems : List (RuleProblem N)

infixl 5 ◌then_do◌
abbrev pub ◌then_do◌ {ℓ κ} : {A : Type ℓ} {B : Type κ} → Result A → (A → Result B) → Result B
ok a then_do f = f a
raise e then_do f = raise e

pub then_do-eq-ok {ℓ κ} :
    {A : Type ℓ} {B : Type κ} (r : Result A) (f : A → Result B) {b : B}
    → (r then_do f) ≡ ok b
    → (a : A) × (r ≡ ok a) × (f a ≡ ok b)
then_do-eq-ok (ok a) f e = (a, refl, e)
then_do-eq-ok (raise _) f e = cc

module _ (A : Arithmetic) where
  -- `bool(value)`
  abbrev pub truthy : Json A.Number → Bool
  truthy Json.null = false
  truthy (Json.boolean b) = b
  truthy (Json.number x) = not (A.eq x (A.decimal 0 0))
  truthy (Json.text s) = not (s == "")
  truthy (Json.array nil) = false
  truthy (Json.array (cons _ _)) = true
  truthy (Json.object end) = false
  truthy (Json.object (field _ _ _)) = true

  -- `value if value else None`
  abbrev pub if_truthy : Option (Json A.Number) → Option (Json A.Number)
  if_truthy none = none
  if_truthy (some v) = if truthy v then some v else none

  abbrev pub str : Json A.Number → String
  str (Json.text s) = s
  str v = A.str v

  -- `rule[key]`, `float(rule[key])` and a text of a rule that validate_rule has accepted.
  abbrev pub member : String → Fields A.Number → Json A.Number
  member key rule = elim (lookup key rule) [ none ↦ Json.null | some v ↦ v ]

  abbrev number_in : Json A.Number → A.Number
  number_in (Json.number x) = x
  number_in _ = A.decimal 0 0

  abbrev pub number_at : String → Fields A.Number → A.Number
  number_at key rule = number_in (member key rule)

  abbrev name_of : Json A.Number → Option (Json A.Number)
  name_of (Json.object rule) = if_truthy (lookup "name" rule)
  name_of _ = none

  abbrev problem_name : ℕ → Option (Json A.Number) → Json A.Number
  problem_name index none = Json.text (concat "index_" (A.str (Json.number (A.of_nat index))))
  problem_name index (some name) = name

  abbrev problem_reason : Problem → String
  problem_reason unknown_feature = "unknown_feature"
  problem_reason _ = "invalid_rule"

  abbrev problem_of : ℕ → Json A.Number → Problem → RuleProblem A.Number
  problem_of index rule issue = record {
    rule_name = problem_name index (name_of rule);
    reason = problem_reason issue;
    detail = issue;
  }

  -- `rule.get("enabled", True)`
  abbrev pub is_enabled : Fields A.Number → Bool
  is_enabled rule = elim (lookup "enabled" rule) [ none ↦ true | some v ↦ truthy v ]

  abbrev pub Sorted : Type 0
  Sorted = List (Fields A.Number) × List (RuleProblem A.Number)

  abbrev pub add_usable : Json A.Number → Sorted → Sorted
  add_usable (Json.object rule) (usable, problems) =
      if is_enabled rule then (rule ∷ usable, problems) else (usable, problems)
  add_usable _ later = later

  abbrev pub sort_rule : ℕ → Json A.Number → Option Problem → Sorted → Sorted
  sort_rule index rule (some issue) (usable, problems) =
      (usable, problem_of index rule issue ∷ problems)
  sort_rule index rule none later = add_usable rule later

  -- The usable rules, and the problems of the others.
  unfoldable pub sort_rules : ℕ → Items A.Number → Result Sorted
  sort_rules index nil = ok ([], [])
  sort_rules index (cons rule rest) =
      let later = sort_rules (suc index) rest in
      validate_rule A rule then_do λ issue.
      later then_do λ sorted. ok (sort_rule index rule issue sorted)

  abbrev comparison_text : Fields A.Number → String
  comparison_text rule =
      concat (str (member "field" rule)) (
        concat " " (concat (str (member "operator" rule)) (concat " " (str (member "value" rule)))))

  -- The reason of a hit must be a text.
  abbrev pub hit_reason : Fields A.Number → Option (Json A.Number) → Result String
  hit_reason rule none = ok (comparison_text rule)
  hit_reason rule (some (Json.text s)) = ok s
  hit_reason rule (some _) = raise (unhandled "ValidationError")

  -- RuleHit checks that its numbers are in [0, 1].
  abbrev pub checked_hit : RuleHit A.Number → Result (RuleHit A.Number)
  checked_hit hit =
      if in_unit A hit.score && (in_unit A hit.weight && in_unit A hit.score_contribution)
      then ok hit
      else raise (unhandled "ValidationError")

  abbrev pub contribution : Fields A.Number → A.Number
  contribution rule = A.mul (number_at "score" rule) (number_at "weight" rule)

  abbrev pub explained : A.Number → Fields A.Number → String → Result (RuleHit A.Number)
  explained denominator rule reason = checked_hit (record {
    rule_name = str (member "name" rule);
    score = number_at "score" rule;
    weight = number_at "weight" rule;
    score_contribution = A.div (contribution rule) denominator;
    reason = reason;
  })

  abbrev pub hit_of : A.Number → Fields A.Number → Result (RuleHit A.Number)
  hit_of denominator rule =
      hit_reason rule (if_truthy (lookup "description" rule)) then_do explained denominator rule

  abbrev pub triggers : Features A.Number → Fields A.Number → Bool
  triggers features rule =
      compare A (feature A (str (member "field" rule)) features) (str (member "operator" rule))
        (member "value" rule)

  abbrev pub Hits : Type 0
  Hits = A.Number × List (RuleHit A.Number)

  -- The numerator so far is carried along.
  unfoldable pub collect_hits :
      Features A.Number → A.Number → A.Number → List (Fields A.Number) → Result Hits
  collect_hits features denominator numerator [] = ok (numerator, [])
  collect_hits features denominator numerator (rule ∷ rest) = elim (triggers features rule) [
    | false ↦ collect_hits features denominator numerator rest
    | true ↦ hit_of denominator rule then_do λ hit.
        collect_hits features denominator (A.add numerator (contribution rule)) rest
        then_do λ later. ok (later.0, hit ∷ later.1)
  ]

  abbrev pub nothing : List (RuleProblem A.Number) → Evaluation A.Number
  nothing problems = record { rule_score = A.decimal 0 0; hits = []; problems = problems }

  unfoldable pub score_usable :
      Features A.Number
      → List (Fields A.Number)
      → List (RuleProblem A.Number)
      → Result (Evaluation A.Number)
  score_usable features [] problems = ok (nothing problems)
  score_usable features (rule ∷ rest) problems =
      let denominator = A.sum (map (number_at "weight") (rule ∷ rest)) in
      if A.le denominator (A.decimal 0 0)
      then ok (nothing problems)
      else (collect_hits features denominator (A.decimal 0 0) (rule ∷ rest) then_do λ found.
          ok (record {
            rule_score = min_one A (A.div found.0 denominator);
            hits = found.1;
            problems = problems;
          }))

  unfoldable pub evaluate_rules : Json A.Number → Features A.Number → Result (Evaluation A.Number)
  evaluate_rules (Json.array rules) features =
      sort_rules 0 rules then_do λ sorted. score_usable features sorted.0 sorted.1
  evaluate_rules _ features = ok (nothing [])

  -- `features.get(rule.get("field"))`: a list or an object is not hashable.
  abbrev feature_at : Features A.Number → Option (Json A.Number) → Result (Option A.Number)
  feature_at features none = ok none
  feature_at features (some (Json.text s)) = ok (feature A s features)
  feature_at features (some (Json.array _)) = raise (unhandled "TypeError")
  feature_at features (some (Json.object _)) = raise (unhandled "TypeError")
  feature_at features (some _) = ok none

  abbrev is_named : String → Json A.Number → Bool
  is_named name (Json.text s) = s == name
  is_named name _ = false

  abbrev matches : String → Json A.Number → Bool
  matches name (Json.object rule) = is_named name (member "name" rule)
  matches name _ = false

  abbrev field_value : Features A.Number → Json A.Number → Result (Option A.Number)
  field_value features (Json.object rule) = feature_at features (lookup "field" rule)
  field_value features _ = ok none

  unfoldable pub matched_item :
      Features A.Number → String → Items A.Number → Result (Option A.Number)
  matched_item features name nil = ok none
  matched_item features name (cons rule rest) =
      let later = matched_item features name rest in
      if matches name rule then field_value features rule else later

  -- The feature that a rule looks at, for the log.
  abbrev pub matched_value : Features A.Number → String → Json A.Number → Result (Option A.Number)
  matched_value features name (Json.array rules) = matched_item features name rules
  matched_value features name _ = ok none
