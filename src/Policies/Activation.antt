-- ===== src/Policies/Activation.antt =====
-- app/detection.py, activate_policy: one policy is active at a time.
use sentinel_auth.Prelude.{
  String, Bool, true, false, not, ◌&&◌, Option, none, some, List, [], ◌∷◌, ◌++◌, ◌==◌, nat_eq, find,
  update,
}
use sentinel_auth.Core.{
  Time, Uuid, Outside, Result, ok, raise, http, ActionOf, pure, throw, ◌>>=◌, ◌>>◌, fetch, change,
  commit, call,
}
use sentinel_auth.Policies.Config.{Arithmetic, Json, Items, nil, cons, Problem, resolve_config}
use sentinel_auth.Policies.Rules.{validate_rule}

pub record Policy (N : Type 0) : Type 0 where
  pub id : Uuid
  pub version : String
  pub rules : Json N
  pub config : Json N
  pub is_active : Bool
  pub activated_at : Option Time
  pub deactivated_at : Option Time

-- The table `policies` of the Detection database.
pub record PolicyDb (N : Type 0) : Type 0 where
  pub policies : List (Policy N)

module _ (A : Arithmetic) where
  abbrev pub Policies : Type 0
  Policies = PolicyDb A.Number

  abbrev pub add_problem : Result (Option Problem) → Result (List Problem) → Result (List Problem)
  add_problem (raise e) _ = raise e
  add_problem (ok p) (raise e) = raise e
  add_problem (ok none) (ok later) = ok later
  add_problem (ok (some p)) (ok later) = ok (p ∷ later)

  -- The problems of the rules; a list is expected, anything else counts as an empty one.
  unfoldable pub rule_problems : Items A.Number → Result (List Problem)
  rule_problems nil = ok []
  rule_problems (cons rule rest) = add_problem (validate_rule A rule) (rule_problems rest)

  abbrev pub policy_rule_problems : Json A.Number → Result (List Problem)
  policy_rule_problems (Json.array items) = rule_problems items
  policy_rule_problems _ = ok []

  abbrev pub raise_invalid : List Problem → ActionOf Policies (Unit {0})
  raise_invalid [] = pure tt
  raise_invalid (_ ∷ _) = throw (http 400 "Policy is invalid")

  abbrev pub check_policy : List Problem → Result (List Problem) → ActionOf Policies (Unit {0})
  check_policy config (raise e) = throw e
  check_policy config (ok rules) = raise_invalid (config ++ rules)

  abbrev pub deactivate_others : Uuid → Time → Policies → Policies
  deactivate_others id now db = record {
    policies =
        update (λ p. p.is_active && not (p.id == id))
          (λ p. record p { is_active = false; deactivated_at = some now }) db.policies;
  }

  abbrev pub activate_one : Uuid → Time → Policies → Policies
  activate_one id now db = record {
    policies =
        update (λ p. p.id == id)
          (λ p. record p { is_active = true; activated_at = some now; deactivated_at = none })
          db.policies;
  }

  unfoldable pub activate_policy : Outside → Uuid → ActionOf Policies String
  activate_policy outside policy_id = do
    policy ← fetch (λ db. find (λ p. p.id == policy_id) db.policies) 404 "Policy not found"
    check_policy (resolve_config A policy.config).1 (policy_rule_problems policy.rules)
    now ← call outside.clock
    change (deactivate_others policy.id now)
    change (activate_one policy.id now)
    commit
    pure policy.version
