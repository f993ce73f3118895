-- ===== src/Pipeline/Usable.antt =====
-- Rules that are malformed or switched off count for nothing.
use sentinel_auth.Prelude.{
  map, ℕ, suc, Bool, true, false, ◌≡◌, refl, ap, subst, Option, none, some, List, [], ◌∷◌,
  if◌then◌else◌, Bool-cases, inl, inr, arith,
}
use sentinel_auth.Core.{Result, ok}
use sentinel_auth.Policies.Config.{Json, Items, nil, cons, Fields, Arithmetic, Problem}
use sentinel_auth.Policies.Rules.{validate_rule}
use sentinel_auth.Pipeline.Features.{Features, min_one}
use sentinel_auth.Pipeline.Evaluation.{
  RuleProblem, Evaluation, then_do-eq-ok, number_at, nothing, is_enabled, add_usable, Sorted,
  sort_rule, sort_rules, collect_hits, score_usable, evaluate_rules,
}

module _ (A : Arithmetic) where
  abbrev accepted : Result (Option Problem) → Bool
  accepted (ok none) = true
  accepted _ = false

  abbrev enabled : Json A.Number → Bool
  enabled (Json.object rule) = is_enabled A rule
  enabled _ = false

  -- A rule without a problem that is not switched off.
  pub is_usable : Json A.Number → Bool
  is_usable rule = if accepted (validate_rule A rule) then enabled rule else false

  pub usable : Items A.Number → Items A.Number
  usable nil = nil
  usable (cons rule rest) =
      let later = usable rest in if is_usable rule then cons rule later else later

  abbrev OnlyUsable : Items A.Number → Sorted A → Type 0
  OnlyUsable rules sorted = (j : ℕ) → sort_rules A j rules ≡ ok (sorted.0, [])

  -- A rule without a problem, in front of rules that are usable.
  add_usable-OnlyUsable :
      (rule : Json A.Number) (later : Items A.Number) (found : Sorted A)
      → validate_rule A rule ≡ ok none
      → OnlyUsable later found
      → OnlyUsable (if enabled rule then cons rule later else later) (add_usable A rule found)
  unfolding sort_rules
  add_usable-OnlyUsable (Json.object rule) later found v ih j =
      elim (Bool-cases (is_enabled A rule)) [
        | inl on ↦ rw (on, v, ih (suc j)) (rw on refl)
        | inr off ↦ rw off (ih j)
      ]
  add_usable-OnlyUsable Json.null later found v ih j = ih j
  add_usable-OnlyUsable (Json.boolean _) later found v ih j = ih j
  add_usable-OnlyUsable (Json.number _) later found v ih j = ih j
  add_usable-OnlyUsable (Json.text _) later found v ih j = ih j
  add_usable-OnlyUsable (Json.array _) later found v ih j = ih j

  sort_rules-usable :
      (i : ℕ) (rules : Items A.Number) {sorted : Sorted A}
      → sort_rules A i rules ≡ ok sorted
      → OnlyUsable (usable rules) sorted
  unfolding sort_rules usable is_usable
  sort_rules-usable i nil {sorted} e j =
      let own : ◌≡◌ {A = Sorted A} ([], []) sorted = cc in
      subst (λ (s : Sorted A). ◌≡◌ {A = Result (Sorted A)} (ok ([], [])) (ok (s.0, []))) own refl
  sort_rules-usable i (cons rule rest) {sorted} e j =
      let (issue, judged, k) = then_do-eq-ok (validate_rule A rule) _ e in
      let (found, later, own) = then_do-eq-ok (sort_rules A (suc i) rest) _ k in
      split issue judged found own (sort_rules-usable (suc i) rest later)
    where
      split :
          (issue : Option Problem)
          → validate_rule A rule ≡ ok issue
          → (found : Sorted A) → ok (sort_rule A i rule issue found) ≡ ok sorted
          → OnlyUsable (usable rest) found
          → sort_rules A j (usable (cons rule rest)) ≡ ok (sorted.0, [])
      split none v found own ih =
          let same : add_usable A rule found ≡ sorted = cc in
          rw v (
            subst
              (λ (s : Sorted A).
                sort_rules A j (if enabled rule then cons rule (usable rest) else usable rest)
                ≡ ok (s.0, []))
              same (add_usable-OnlyUsable rule (usable rest) found v ih j))
      split (some p) v found own ih =
          let same : sort_rule A i rule (some p) found ≡ sorted = cc in
          rw v (subst (λ (s : Sorted A). sort_rules A j (usable rest) ≡ ok (s.0, [])) same (ih j))

  score_usable-problems :
      (features : Features A.Number) (rules : List (Fields A.Number))
      (problems : List (RuleProblem A.Number)) {e : Evaluation A.Number}
      → score_usable A features rules problems ≡ ok e
      → score_usable A features rules [] ≡ ok (record e { problems = [] })
  unfolding score_usable
  score_usable-problems features [] problems {e} ran = ground arith
  score_usable-problems features (rule ∷ rest) problems {e} ran =
      let denominator = A.sum (map (number_at A "weight") (rule ∷ rest)) in
      elim (Bool-cases (A.le denominator (A.decimal 0 0))) [
        | inl no_weight ↦
            let made : ok (nothing A problems) ≡ ok e = rw no_weight at ran in
            let own : nothing A problems ≡ e = cc in
            rw no_weight (ap (λ (q : Evaluation A.Number). ok (record q { problems = [] })) own)
        | inr weighed ↦
            let (found, hits, made) =
              then_do-eq-ok (collect_hits A features denominator (A.decimal 0 0) (rule ∷ rest)) _
                (rw weighed at ran) in
            let scored : Evaluation A.Number = record {
              rule_score = min_one A (A.div found.0 denominator);
              hits = found.1;
              problems = problems;
            } in
            let own : scored ≡ e = cc in
            rw (weighed, hits)
              (ap (λ (q : Evaluation A.Number). ok (record q { problems = [] })) own)
      ]

  -- The score and the hits of the rules are those of the usable rules alone: a rule with a problem
  -- and a rule that is switched off change neither.
  pub evaluate_rules-usable :
      (rules : Items A.Number) (features : Features A.Number) {e : Evaluation A.Number}
      → evaluate_rules A (Json.array rules) features ≡ ok e
      → evaluate_rules A (Json.array (usable rules)) features ≡ ok (record e { problems = [] })
  unfolding evaluate_rules
  evaluate_rules-usable rules features {e} ran =
      let (sorted, sorts, scored) = then_do-eq-ok (sort_rules A 0 rules) _ ran in
      rw (sort_rules-usable 0 rules sorts 0)
        (score_usable-problems features sorted.0 sorted.1 scored)
