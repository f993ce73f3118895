-- ===== src/Policies/Exclusive.antt =====
-- After an activation one policy is active, the one that was asked for.
use sentinel_auth.Prelude.{
  String, true, false, not, ◌&&◌, ◌≡◌, refl, sym, ap, ◌∙◌, subst, none, some, List, [], ◌∷◌, ◌==◌,
  nat_eq, nat_beq_iff, find, All, All-of-update, All-update, find-eq-some, find-update_within,
  find-update_miss, arith,
}
use sentinel_auth.Core.{
  Time, Uuid, Outside, Result, ok, raise, WorldOf, respond, fetch-eq-ok, >>=-eq-ok, respond-eq-ok,
}
use sentinel_auth.Policies.Config.{Arithmetic, Problem, resolve_config}
use sentinel_auth.Policies.Activation.{
  Policy, Policies, policy_rule_problems, check_policy, deactivate_others, activate_one,
  activate_policy,
}

module _ (A : Arithmetic) where
  check_policy-eq-ok :
      (config : List Problem) (rules : Result (List Problem)) (w : WorldOf (Policies A))
      {a : Unit {0}} {w' : WorldOf (Policies A)}
      → check_policy A config rules w ≡ (ok a, w')
      → (config ≡ []) × (rules ≡ ok []) × (w' ≡ w)
  check_policy-eq-ok config (raise e) w h = cc
  check_policy-eq-ok [] (ok []) w h = (refl, refl, cc)
  check_policy-eq-ok [] (ok (_ ∷ _)) w h = cc
  check_policy-eq-ok (_ ∷ _) (ok rules) w h = cc

  -- The one active policy has the identifier.
  abbrev pub OnlyActive : Uuid → Policies A → Type 0
  OnlyActive id db = All (λ p. p.is_active ≡ true → p.id ≡ id) db.policies

  deactivate_others-OnlyActive :
      (id : Uuid) (now : Time) (db : Policies A) → OnlyActive id (deactivate_others A id now db)
  deactivate_others-OnlyActive id now db =
      All-of-update (λ (p : Policy A.Number). p.is_active ≡ true → p.id ≡ id)
        (λ p. p.is_active && not (p.id == id))
        (λ p. record p { is_active = false; deactivated_at = some now }) db.policies (λ p h e. cc)
        (λ p h e. left p h e)
    where
      left :
          (p : Policy A.Number)
          → (p.is_active && not (p.id == id)) ≡ false
          → p.is_active ≡ true
          → p.id ≡ id
      left p h e = ground arith

  activate_one-OnlyActive :
      (id : Uuid) (now : Time) (db : Policies A)
      → OnlyActive id db
      → OnlyActive id (activate_one A id now db)
  activate_one-OnlyActive id now db h =
      All-update (λ (p : Policy A.Number). p.is_active ≡ true → p.id ≡ id) (λ p. p.id == id)
        (λ p. record p { is_active = true; activated_at = some now; deactivated_at = none })
        db.policies (λ p _ hit e. (nat_beq_iff p.id id).0 hit) h

  carried :
      (i j : Uuid) (db db' : Policies A)
      → i ≡ j
      → db'.policies ≡ db.policies
      → OnlyActive i db
      → OnlyActive j db'
  carried i j db db' own same h = subst (λ k. OnlyActive k db') own (rw same h)

  -- The row of the policy after both updates.
  still :
      (id : Uuid) (p : Policy A.Number) (at : Time) (db : Policies A)
      → p.id ≡ id
      → find (λ q. q.id == id) db.policies ≡ some p
      → find (λ q. q.id == id) (activate_one A p.id at (deactivate_others A p.id at db)).policies
        ≡ some (record p { is_active = true; activated_at = some at; deactivated_at = none })
  still id p at db own found =
      find-update_within (λ (q : Policy A.Number). q.id == id) (λ q. q.id == p.id)
        (λ q. record q { is_active = true; activated_at = some at; deactivated_at = none })
        (deactivate_others A p.id at db).policies (λ q h. ground (arith, own)) (λ q. refl)
        (find-update_miss (λ (q : Policy A.Number). q.id == id)
            (λ q. q.is_active && not (q.id == p.id))
            (λ q. record q { is_active = false; deactivated_at = some at }) db.policies
            (λ q h. apart q own h)
          ∙ found)
    where
      apart :
          (q : Policy A.Number)
          → p.id ≡ id
          → (q.is_active && not (q.id == p.id)) ≡ true
          → ((q.id == id) ≡ false) × ((q.id == id) ≡ false)
      apart q own h = ground arith

  -- An activation succeeds only for a policy whose configuration and rules have no problem; then it
  -- is the only active policy, and its rules and its configuration are what they were.
  pub activation_exclusive :
      (outside : Outside) (id : Uuid) (w : WorldOf (Policies A)) {version : String}
      {w' : WorldOf (Policies A)}
      → respond (activate_policy A outside id) w ≡ (ok version, w')
      → (p : Policy A.Number) × (find (λ q. q.id == id) w.committed.policies ≡ some p)
        × ((resolve_config A p.config).1 ≡ [])
        × (policy_rule_problems A p.rules ≡ ok [])
        × OnlyActive id w'.committed
        × (q : Policy A.Number) × (find (λ q. q.id == id) w'.committed.policies ≡ some q)
        × (q.is_active ≡ true)
        × (q.rules ≡ p.rules)
        × (q.config ≡ p.config)
  unfolding activate_policy
  activation_exclusive outside id w {version} {w'} e =
      let opened : WorldOf (Policies A) = record w { working = w.committed } in
      let now = outside.clock w.calls in
      let (v, ran, ended) = respond-eq-ok (activate_policy A outside id) w e in
      let (p, found, k1) =
        fetch-eq-ok (λ (db : Policies A). find (λ q. q.id == id) db.policies) 404 "Policy not found"
          _ opened ran in
      let (_, w1, checked, k2) =
        >>=-eq-ok (check_policy A (resolve_config A p.config).1 (policy_rule_problems A p.rules)) _
          opened k1 in
      let (config, rules, s1) = check_policy-eq-ok _ _ opened checked in
      let own : p.id ≡ id =
        (nat_beq_iff p.id id).0
          (find-eq-some (λ (q : Policy A.Number). q.id == id) w.committed.policies found) in
      let at = outside.clock w1.calls in
      let written =
        ap (λ (d : Policies A). d.policies)
          (ap (λ (u : WorldOf (Policies A)). u.committed) ended
            ∙ ap (λ (r : Result String × WorldOf (Policies A)). r.1.committed) (sym k2)) in
      let before : find (λ (q : Policy A.Number). q.id == id) w1.working.policies ≡ some p =
        ap (λ (u : WorldOf (Policies A)). find (λ q. q.id == id) u.working.policies) s1 ∙ found in
      (
        p,
        found,
        config,
        rules,
        carried p.id id (activate_one A p.id at (deactivate_others A p.id at w1.working))
            w'.committed own written
            (activate_one-OnlyActive p.id at (deactivate_others A p.id at w1.working)
              (deactivate_others-OnlyActive p.id at w1.working)),
        record p { is_active = true; activated_at = some at; deactivated_at = none },
        ap (find (λ q. q.id == id)) written ∙ still id p at w1.working own before,
        refl,
        refl,
        refl,
      )
