-- ===== src/Pipeline/Bounds.antt =====
-- The scores stay in [0, 1], and a higher score never brings a milder decision.
use sentinel_auth.Prelude.{
  ℕ, ◌≤◌, true, ◌&&◌, ◌≡◌, subst, List, [], ◌∷◌, Bool-cases, inl, inr, All, arith, map,
}
use sentinel_auth.Core.{ok}
use sentinel_auth.Detection.Tables.{Decision}
use sentinel_auth.Policies.Config.{Json, Fields, Arithmetic, Weights, Thresholds, in_unit, lookup}
use sentinel_auth.Pipeline.Features.{Features, min_one, max_zero}
use sentinel_auth.Pipeline.Evaluation.{
  RuleHit, RuleProblem, Evaluation, number_at, triggers, str, member, if_truthy, explained, hit_of,
  then_do-eq-ok, contribution, hit_reason, checked_hit, nothing, collect_hits, score_usable,
  sort_rules, evaluate_rules,
}
use sentinel_auth.Pipeline.Ml.{MlOutcome}
use sentinel_auth.Pipeline.Levels.{decision_of, map_score_to_risk_level, weighted, combine}

-- What is used of Python's numbers. NaN meets these laws: it is neither below nor above anything.
pub record IsOrdered (A : Arithmetic) : Type 0 where
  pub zero_le_zero : A.le (A.decimal 0 0) (A.decimal 0 0) ≡ true
  pub zero_le_one : A.le (A.decimal 0 0) (A.decimal 1 0) ≡ true
  pub one_le_one : A.le (A.decimal 1 0) (A.decimal 1 0) ≡ true
  pub le_of_lt : (x y : A.Number) → A.lt x y ≡ true → A.le x y ≡ true
  pub lt_of_le_of_lt : (x y z : A.Number) → A.le x y ≡ true → A.lt y z ≡ true → A.lt x z ≡ true

abbrev pub severity : Decision → ℕ
severity Decision.allow = 0
severity Decision.challenge = 1
severity Decision.block = 2

module _ (A : Arithmetic) where
  abbrev pub IsUnitHit : RuleHit A.Number → Type 0
  IsUnitHit hit =
      in_unit A hit.score && (in_unit A hit.weight && in_unit A hit.score_contribution) ≡ true

  -- Of a result of the rules: the score is at most 1, and the hits are in [0, 1].
  abbrev pub IsBounded : Evaluation A.Number → Type 0
  IsBounded e = (A.le e.rule_score (A.decimal 1 0) ≡ true) × All IsUnitHit e.hits

module _ (A : Arithmetic) (laws : IsOrdered A) where
  open laws use {zero_le_zero, zero_le_one, one_le_one, le_of_lt, lt_of_le_of_lt}

  min_one-le-one : (x : A.Number) → A.le (min_one A x) (A.decimal 1 0) ≡ true
  min_one-le-one x = elim (Bool-cases (A.lt x (A.decimal 1 0))) [
    | inl below ↦ rw below (le_of_lt x _ below)
    | inr above ↦ rw above one_le_one
  ]

  zero-le-max_zero : (x : A.Number) → A.le (A.decimal 0 0) (max_zero A x) ≡ true
  zero-le-max_zero x = elim (Bool-cases (A.lt (A.decimal 0 0) x)) [
    | inl above ↦ rw above (le_of_lt _ x above)
    | inr below ↦ rw below zero_le_zero
  ]

  zero-le-min_one :
      (x : A.Number) → A.le (A.decimal 0 0) x ≡ true → A.le (A.decimal 0 0) (min_one A x) ≡ true
  zero-le-min_one x h = elim (Bool-cases (A.lt x (A.decimal 1 0))) [
    | inl below ↦ rw below h
    | inr above ↦ rw above zero_le_one
  ]

  -- Whatever the weights and the scores are, infinite or NaN included, the combined score is in
  -- [0, 1].
  pub combine_bounds :
      (w : Weights A.Number) (rule_score : A.Number) (ml : MlOutcome A.Number)
      → in_unit A (combine A w rule_score ml) ≡ true
  unfolding combine
  combine_bounds w rule_score ml =
      let raw = weighted A w rule_score ml.status ml.score in
      rw (zero-le-min_one (max_zero A raw) (zero-le-max_zero raw), min_one-le-one (max_zero A raw))

  -- With the same thresholds, in whatever order they stand, a score that is not lower never brings a
  -- milder decision.
  pub decision_mono :
      (s t : A.Number) (thresholds : Thresholds A.Number)
      → A.le s t ≡ true
      → severity (decision_of (map_score_to_risk_level A s thresholds))
        ≤ severity (decision_of (map_score_to_risk_level A t thresholds))
  unfolding map_score_to_risk_level decision_of
  decision_mono s t th h = ground (
    arith,
    lt_of_le_of_lt s t th.low h,
    lt_of_le_of_lt s t th.medium h,
    lt_of_le_of_lt s t th.high h,
  )

  checked_hit-IsUnitHit :
      (hit : RuleHit A.Number) {h : RuleHit A.Number} → checked_hit A hit ≡ ok h → IsUnitHit A h
  checked_hit-IsUnitHit hit {h} e =
      elim (Bool-cases
        (in_unit A hit.score && (in_unit A hit.weight && in_unit A hit.score_contribution))) [
          | inl good ↦
              let made : ok hit ≡ ok h = rw good at e in
              let own : hit ≡ h = cc in subst (IsUnitHit A) own good
          | inr bad ↦ cc (rw bad at e)
        ]

  hit_of-IsUnitHit :
      (denominator : A.Number) (rule : Fields A.Number) {h : RuleHit A.Number}
      → hit_of A denominator rule ≡ ok h
      → IsUnitHit A h
  hit_of-IsUnitHit denominator rule e =
      let (reason, _, checked) =
        then_do-eq-ok (hit_reason A rule (if_truthy A (lookup "description" rule)))
          (explained A denominator rule) e in
      checked_hit-IsUnitHit
        (record {
          rule_name = str A (member A "name" rule);
          score = number_at A "score" rule;
          weight = number_at A "weight" rule;
          score_contribution = A.div (contribution A rule) denominator;
          reason = reason;
        })
        checked

  collect_hits-All :
      (features : Features A.Number) (denominator numerator : A.Number)
      (rules : List (Fields A.Number)) {found : A.Number × List (RuleHit A.Number)}
      → collect_hits A features denominator numerator rules ≡ ok found
      → All (IsUnitHit A) found.1
  unfolding collect_hits
  collect_hits-All features denominator numerator [] {found} e =
      let own : ◌≡◌ {A = A.Number × List (RuleHit A.Number)} (numerator, []) found = cc in
      subst (λ (f : A.Number × List (RuleHit A.Number)). All (IsUnitHit A) f.1) own tt
  collect_hits-All features denominator numerator (rule ∷ rest) {found} e =
      elim (Bool-cases (triggers A features rule)) [
        | inr quiet ↦
            collect_hits-All features denominator numerator rest (rw (quiet, collect_hits) at e)
        | inl hit ↦
            let (h, made, k) =
              then_do-eq-ok (hit_of A denominator rule) _ (rw (hit, collect_hits) at e) in
            let (later, rest_found, done) =
              then_do-eq-ok
                (collect_hits A features denominator (A.add numerator (contribution A rule)) rest) _
                k in
            let own : ◌≡◌ {A = A.Number × List (RuleHit A.Number)} (later.0, h ∷ later.1) found =
              cc in
            subst (λ (f : A.Number × List (RuleHit A.Number)). All (IsUnitHit A) f.1) own
              (
                hit_of-IsUnitHit denominator rule made,
                collect_hits-All features denominator (A.add numerator (contribution A rule)) rest
                    rest_found,
              )
      ]

  nothing-IsBounded : (problems : List (RuleProblem A.Number)) → IsBounded A (nothing A problems)
  nothing-IsBounded problems = (zero_le_one, tt)

  score_usable-IsBounded :
      (features : Features A.Number) (rules : List (Fields A.Number))
      (problems : List (RuleProblem A.Number)) {e : Evaluation A.Number}
      → score_usable A features rules problems ≡ ok e
      → IsBounded A e
  unfolding score_usable
  score_usable-IsBounded features [] problems {e} ran =
      let own : nothing A problems ≡ e = cc in subst (IsBounded A) own (nothing-IsBounded problems)
  score_usable-IsBounded features (rule ∷ rest) problems {e} ran =
      let denominator = A.sum (map (number_at A "weight") (rule ∷ rest)) in
      elim (Bool-cases (A.le denominator (A.decimal 0 0))) [
        | inl no_weight ↦
            let made : ok (nothing A problems) ≡ ok e = rw no_weight at ran in
            let own : nothing A problems ≡ e = cc in
            subst (IsBounded A) own (nothing-IsBounded problems)
        | inr weighed ↦
            let (found, hits, made) =
              then_do-eq-ok (collect_hits A features denominator (A.decimal 0 0) (rule ∷ rest)) _
                (rw weighed at ran) in
            let scored : Evaluation A.Number = record {
              rule_score = min_one A (A.div found.0 denominator);
              hits = found.1;
              problems = problems;
            } in
            let own : scored ≡ e = cc in
            subst (IsBounded A) own
              (min_one-le-one _, collect_hits-All features denominator _ (rule ∷ rest) hits)
      ]

  none_to_do : {e : Evaluation A.Number} → nothing A [] ≡ e → IsBounded A e
  none_to_do own = subst (IsBounded A) own (nothing-IsBounded [])

  -- Whatever JSON the rules of a policy are, their score is at most 1, and the score, the weight and
  -- the contribution of each hit are in [0, 1].
  pub evaluate_rules_bounds :
      (rules : Json A.Number) (features : Features A.Number) {e : Evaluation A.Number}
      → evaluate_rules A rules features ≡ ok e
      → IsBounded A e
  unfolding evaluate_rules
  evaluate_rules_bounds (Json.array rules) features ran =
      let (sorted, _, scored) = then_do-eq-ok (sort_rules A 0 rules) _ ran in
      score_usable-IsBounded features sorted.0 sorted.1 scored
  evaluate_rules_bounds Json.null features {e} ran = none_to_do {e = e} (cc)
  evaluate_rules_bounds (Json.boolean _) features {e} ran = none_to_do {e = e} (cc)
  evaluate_rules_bounds (Json.number _) features {e} ran = none_to_do {e = e} (cc)
  evaluate_rules_bounds (Json.text _) features {e} ran = none_to_do {e = e} (cc)
  evaluate_rules_bounds (Json.object _) features {e} ran = none_to_do {e = e} (cc)
