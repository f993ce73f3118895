-- ===== src/Alerts/Status.antt =====
-- The life of an alert under any requests, and what its timeline tells.
use sentinel_auth.Prelude.{
  ℕ, true, false, ◌≡◌, refl, sym, ap, ◌∙◌, subst, subst₂, some, List, [], ◌∷◌, ◌==◌, nat_eq,
  nat_beq_iff, Bool-cases, inl, inr, find-eq-some, find-update_hit, find-update_miss, arith,
}
use sentinel_auth.Core.{Uuid, Outside, HttpRequest, WorldOf, respond}
use sentinel_auth.Authz.{AuthContext}
use sentinel_auth.Actions.{ActionRequest}
use sentinel_auth.Detection.Tables.{AlertStatus, Alert, DetectionDb}
use sentinel_auth.Detection.Client.{CoreReply}
use sentinel_auth.Alerts.{find_alert, is_unsettled}
use sentinel_auth.Alerts.Effects.{
  AlertRequest, Moved, Effect, untouched, annotated, acknowledged, settled, serve, serve-Effect,
}

-- The transitions of an alert.
pub data Step : AlertStatus → AlertStatus → Type 0 where
  acknowledging : Step AlertStatus.opened AlertStatus.acknowledged
  settling : {s s' : AlertStatus} → is_unsettled s ≡ true → is_unsettled s' ≡ false → Step s s'

pub data Steps : AlertStatus → AlertStatus → Type 0 where
  done : {s : AlertStatus} → Steps s s
  step : {s s' s'' : AlertStatus} → Step s s' → Steps s' s'' → Steps s s''

own_alert : (id : Uuid) (db : DetectionDb) {a : Alert} → find_alert id db ≡ some a → a.id ≡ id
own_alert id db {a} e =
    (nat_beq_iff a.id id).0 (find-eq-some (λ (b : Alert). b.id == id) db.alerts e)

-- The row of an alert after a request: the rewritten target, or what it was.
pub data Followed (m_id : Uuid) (target : Alert) (f : Alert → Alert) (id : Uuid) (a : Alert)
    (db' : DetectionDb) : Type 0 where
  rewritten :
      m_id ≡ id → target ≡ a → find_alert id db' ≡ some (f a) → Followed m_id target f id a db'
  left : find_alert id db' ≡ some a → Followed m_id target f id a db'

pub Moved-Followed :
    (id : Uuid) (db db' : DetectionDb) {a : Alert} (m : Moved db db')
    → find_alert id db ≡ some a
    → Followed m.id m.target m.change id a db'
Moved-Followed id db db' {a} m found = elim (Bool-cases (m.id == id)) [
  | inl hit ↦
      let same : m.id ≡ id = (nat_beq_iff m.id id).0 hit in
      let one : m.target ≡ a = cc (subst (λ k. find_alert k db ≡ some m.target) same m.found) in
      rewritten same one (
        rw (m.alerts, own, same)
          (find-update_hit (λ (b : Alert). b.id == id) m.change db.alerts
            (λ b h. rw (m.keeps_id b) h) found))
  | inr miss ↦ left (
      rw m.alerts (
        find-update_miss (λ (b : Alert). b.id == id) (λ b. b.id == m.target.id) m.change db.alerts
          (λ b h. apart b h miss)
        ∙ found))
]
  where
    own : m.target.id ≡ m.id
    own = own_alert m.id db m.found

    apart :
        (b : Alert)
        → (b.id == m.target.id) ≡ true
        → (m.id == id) ≡ false
        → ((b.id == id) ≡ false) × (((m.change b).id == id) ≡ false)
    apart b h miss = rw (m.keeps_id b) (ground (arith, own))

-- One request moves the status along a transition, or leaves it and the resolution.
data Progress (a a' : Alert) : Type 0 where
  kept : a'.status ≡ a.status → a'.resolution ≡ a.resolution → Progress a a'
  moved : Step a.status a'.status → Progress a a'

Effect-Progress :
    (actor id : Uuid) (db db' : DetectionDb) {a : Alert}
    → Effect actor db db'
    → find_alert id db ≡ some a
    → (a' : Alert) × (find_alert id db' ≡ some a') × Progress a a'
Effect-Progress actor id db db' {a} (untouched same) found = (a, rw same found, kept refl refl)
Effect-Progress actor id db db' {a} (annotated m status resolution) found =
    elim (Moved-Followed id db db' m found) [
      | rewritten _ _ there ↦ (m.change a, there, kept (status a) (resolution a))
      | left there ↦ (a, there, kept refl refl)
    ]
Effect-Progress actor id db db' {a} (acknowledged m from to e rest _ _) found =
    elim (Moved-Followed id db db' m found) [
      | rewritten _ one there ↦ (
        m.change a,
        there,
        moved
            (subst₂ Step (sym from ∙ ap (λ (b : Alert). b.status) one) (sym (to a)) acknowledging),
      )
      | left there ↦ (a, there, kept refl refl)
    ]
Effect-Progress actor id db db' {a} (settled m s from to status e rest _ _) found =
    elim (Moved-Followed id db db' m found) [
      | rewritten _ one there ↦
          (m.change a, there, moved (settling (rw one at from) (rw (status a) to)))
      | left there ↦ (a, there, kept refl refl)
    ]

-- A run of requests by any callers, with Core's answers to each.
abbrev pub Served : Type 0
Served = (ℕ → ActionRequest → CoreReply) × HttpRequest × AuthContext × AlertRequest

unfoldable pub serve_all : Outside → List Served → WorldOf DetectionDb → WorldOf DetectionDb
serve_all outside [] w = w
serve_all outside ((core, request, ctx, q) ∷ rest) w =
    serve_all outside rest (respond (serve outside core request ctx q) w).1

settled-no_step : {B : Type 0} {s s' : AlertStatus} → is_unsettled s ≡ false → Step s s' → B
settled-no_step h acknowledging = cc
settled-no_step h (settling g _) = cc

-- Over any run of requests an alert stays, and its status only moves along the transitions: from
-- open to acknowledged, and from these two to resolved or false positive. A settled alert keeps its
-- status and its resolution for ever.
pub alert_lifecycle :
    (outside : Outside) (requests : List Served) (w : WorldOf DetectionDb) (id : Uuid) {a : Alert}
    → find_alert id w.committed ≡ some a
    → (a' : Alert) × (find_alert id (serve_all outside requests w).committed ≡ some a')
      × Steps a.status a'.status
      × (is_unsettled a.status ≡ false → (a'.status ≡ a.status) × (a'.resolution ≡ a.resolution))
unfolding serve_all
alert_lifecycle outside [] w id {a} found = (a, found, done, (λ _. (refl, refl)))
alert_lifecycle outside ((core, request, ctx, q) ∷ rest) w id {a} found =
    let w1 = (respond (serve outside core request ctx q) w).1 in
    let (a1, there, progress) =
      Effect-Progress ctx.user.id id w.committed w1.committed
        (serve-Effect outside core request ctx w q) found in
    let (a2, end, steps, final) = alert_lifecycle outside rest w1 id there in
    (a2, end, first a1 a2 progress steps, (λ h. last a1 a2 progress h final))
  where
    first : (b c : Alert) → Progress a b → Steps b.status c.status → Steps a.status c.status
    first b c (kept s _) steps = subst (λ x. Steps x c.status) s steps
    first b c (moved s) steps = step s steps

    last :
        (b c : Alert)
        → Progress a b
        → is_unsettled a.status ≡ false
        → (is_unsettled b.status ≡ false → (c.status ≡ b.status) × (c.resolution ≡ b.resolution))
        → (c.status ≡ a.status) × (c.resolution ≡ a.resolution)
    last b c (kept s r) h final = let (x, y) = final (rw s h) in (x ∙ s, y ∙ r)
    last b c (moved s) h final = settled-no_step h s
