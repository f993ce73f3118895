-- ===== src/Tests/Policies.antt =====
-- Policies on a sample, with numbers in millionths.
use sentinel_auth.Prelude.{
  ℕ, zero, suc, ◌+◌, ◌/◌, List, ◌-◌, ◌*◌, true, false, ◌≡◌, refl, ap, none, some, [], ◌∷◌, ◌==◌,
  nat_eq, leb, ltb, if◌then◌else◌, find,
}
use sentinel_auth.Core.{ok, WorldOf, respond}
use sentinel_auth.Policies.Config.{
  Arithmetic, Json, nil, cons, end, field, lookup, item_count, resolve_config,
}
use sentinel_auth.Policies.Rules.{validate_rule}
use sentinel_auth.Policies.Activation.{
  Policy, PolicyDb, Policies, rule_problems, policy_rule_problems, activate_policy,
}
use sentinel_auth.Policies.Exclusive.{OnlyActive, activation_exclusive}
use sentinel_auth.Tests.Sample.{outside}

abbrev millionths : ℕ → ℕ → ℕ
millionths m n =
    if n == 0
    then m * 1_000_000
    else (if n == 1 then m * 100_000 else (if n == 2 then m * 10_000 else m))

abbrev quotient : ℕ → ℕ → ℕ
quotient a zero = 0
quotient a (suc b) = a / suc b

abbrev total : List (ℕ × ℕ) → ℕ × ℕ
total [] = (0, 0)
total (x ∷ xs) = let rest = total xs in (x.0 + rest.0, x.1 + rest.1)

-- A number is a difference; products and quotients are taken of numbers that are not negative.
abbrev pub arithmetic : Arithmetic
arithmetic = record {
  Number = ℕ × ℕ;
  le = λ a b. leb (a.0 + b.1) (b.0 + a.1);
  lt = λ a b. ltb (a.0 + b.1) (b.0 + a.1);
  eq = λ a b. a.0 + b.1 == b.0 + a.1;
  add = λ a b. (a.0 + b.0, a.1 + b.1);
  sub = λ a b. (a.0 + b.1, a.1 + b.0);
  mul = λ a b. ((a.0 - a.1) * (b.0 - b.1) / 1_000_000, 0);
  div = λ a b. (quotient ((a.0 - a.1) * 1_000_000) (b.0 - b.1), 0);
  abs = λ a. ((a.0 - a.1) + (a.1 - a.0), 0);
  sum = total;
  decimal = λ m n. (millionths m n, 0);
  of_nat = λ n. (n * 1_000_000, 0);
  seconds = λ n. (n, 0);
  truncate = λ a. ((a.0 - a.1) / 1_000_000 * 1_000_000, 0);
  round4 = λ a. a;
  numeric = λ p s a. if s == 4 then some (a.0 / 100 * 100, a.1 / 100 * 100) else some a;
  fixed4 = λ _. "0.0000";
  str = λ _. "value";
}

abbrev weights : Json (ℕ × ℕ)
weights =
    Json.object
      (field "rule" (Json.number (300_000, 0)) (field "ml" (Json.number (700_000, 0)) end))

abbrev config : Json (ℕ × ℕ)
config = Json.object (field "weights" weights (field "thresholds" Json.null end))

abbrev pub rule : Json (ℕ × ℕ)
rule = Json.object (
    field "name" (Json.text "night") (
      field "field" (Json.text "hour_of_day") (
        field "operator" (Json.text "between") (
          field "value"
            (Json.array (cons (Json.number (0, 0)) (cons (Json.number (5_000_000, 0)) nil)))
            (field "weight" (Json.number (500_000, 0))
              (field "score" (Json.number (900_000, 0)) end))))))

abbrev old_policy : Policy (ℕ × ℕ)
old_policy = record {
  id = 70;
  version = "v1";
  rules = Json.array nil;
  config = Json.null;
  is_active = true;
  activated_at = some 1;
  deactivated_at = none;
}

abbrev pub new_policy : Policy (ℕ × ℕ)
new_policy = record {
  id = 71;
  version = "v2";
  rules = Json.array (cons rule nil);
  config = config;
  is_active = false;
  activated_at = none;
  deactivated_at = none;
}

abbrev policies : PolicyDb (ℕ × ℕ)
policies = record { policies = old_policy ∷ new_policy ∷ [] }

abbrev policy_world : WorldOf (Policies arithmetic)
policy_world = record { committed = policies; working = policies; calls = 0; posted = [] }

activated : (respond (activate_policy arithmetic outside 71) policy_world).0 ≡ ok "v2"
unfolding activate_policy resolve_config lookup rule_problems validate_rule item_count
activated = refl

after-activation :
    respond (activate_policy arithmetic outside 71) policy_world
    ≡ (ok "v2", (respond (activate_policy arithmetic outside 71) policy_world).1)
after-activation =
    ap (λ r. (r, (respond (activate_policy arithmetic outside 71) policy_world).1)) activated

activation_exclusive_example :
    (p : Policy (ℕ × ℕ)) × (find (λ q. q.id == 71) policy_world.committed.policies ≡ some p)
    × ((resolve_config arithmetic p.config).1 ≡ [])
    × (policy_rule_problems arithmetic p.rules ≡ ok [])
    × OnlyActive arithmetic 71
        (respond (activate_policy arithmetic outside 71) policy_world).1.committed
    × (q : Policy (ℕ × ℕ)) × (find
          (λ q. q.id == 71)
          (respond (activate_policy arithmetic outside 71) policy_world).1.committed.policies
        ≡ some q)
    × (q.is_active ≡ true)
    × (q.rules ≡ p.rules)
    × (q.config ≡ p.config)
activation_exclusive_example =
    activation_exclusive arithmetic outside 71 policy_world after-activation
