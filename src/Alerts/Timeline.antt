-- ===== src/Alerts/Timeline.antt =====
-- What the timeline tells of the alerts.
use sentinel_auth.Prelude.{
  ℕ, ◌≡◌, ◌≢◌, refl, sym, ap, ◌∙◌, Option, some, List, [], ◌∷◌, ◌++◌, nat_eq,
}
use sentinel_auth.Core.{Uuid, Outside, HttpRequest, WorldOf, respond}
use sentinel_auth.Authz.{AuthContext}
use sentinel_auth.Actions.{ActionRequest}
use sentinel_auth.Detection.Tables.{AlertStatus, Alert, AlertTimeline, DetectionDb}
use sentinel_auth.Detection.Client.{CoreReply}
use sentinel_auth.Alerts.{find_alert, text_value}
use sentinel_auth.Alerts.Effects.{
  AlertRequest, Tells, Effect, untouched, annotated, acknowledged, settled, serve, serve-Effect,
}
use sentinel_auth.Alerts.Status.{Served, serve_all, rewritten, left, Moved-Followed}

append_assoc : (x y z : List AlertTimeline) → (x ++ y) ++ z ≡ x ++ (y ++ z)
append_assoc [] y z = refl
append_assoc (e ∷ x) y z = rw (append_assoc x y z) refl

append_nil : (x : List AlertTimeline) → x ++ [] ≡ x
append_nil [] = refl
append_nil (e ∷ x) = rw (append_nil x) refl

Effect-timeline :
    (actor : Uuid) (db db' : DetectionDb)
    → Effect actor db db'
    → (es : List AlertTimeline) × (db'.alert_timeline ≡ db.alert_timeline ++ es)
Effect-timeline actor db db' (untouched same) = ([], rw same (sym (append_nil db.alert_timeline)))
Effect-timeline actor db db' (annotated m _ _) = (m.entries, m.timeline)
Effect-timeline actor db db' (acknowledged m _ _ _ _ _ _) = (m.entries, m.timeline)
Effect-timeline actor db db' (settled m _ _ _ _ _ _ _ _) = (m.entries, m.timeline)

-- The timeline is only appended to, over any run of requests.
pub timeline_grows :
    (outside : Outside) (requests : List Served) (w : WorldOf DetectionDb)
    → (es : List AlertTimeline) × ((serve_all outside requests w).committed.alert_timeline
        ≡ w.committed.alert_timeline ++ es)
unfolding serve_all
timeline_grows outside [] w = ([], sym (append_nil w.committed.alert_timeline))
timeline_grows outside ((core, request, ctx, q) ∷ rest) w =
    let w1 = (respond (serve outside core request ctx q) w).1 in
    let (es, one) =
      Effect-timeline ctx.user.id w.committed w1.committed
        (serve-Effect outside core request ctx w q) in
    let (fs, more) = timeline_grows outside rest w1 in
    (es ++ fs, more ∙ (ap (λ l. l ++ fs) one ∙ append_assoc w.committed.alert_timeline es fs))

one_row : {o : Option Alert} {b c : Alert} → o ≡ some b → o ≡ some c → b ≡ c
one_row e f = cc

retell :
    {id id' actor : Uuid} {s s' t t' : AlertStatus} {e : AlertTimeline}
    → id ≡ id'
    → s ≡ s'
    → t ≡ t'
    → Tells id actor s t e
    → Tells id' actor s' t' e
retell i from to h = record {
  about = h.about ∙ i;
  by = h.by;
  from = h.from ∙ ap text_value from;
  to = h.to ∙ ap text_value to;
}

-- When a request has changed the status of an alert, the timeline has a new entry on the alert that
-- names the caller, the old status and the new one.
pub status_change_told :
    (outside : Outside) (core : ℕ → ActionRequest → CoreReply) (request : HttpRequest)
    (ctx : AuthContext) (q : AlertRequest) (w : WorldOf DetectionDb) (id : Uuid) {a a' : Alert}
    → find_alert id w.committed ≡ some a
    → find_alert id (respond (serve outside core request ctx q) w).1.committed ≡ some a'
    → a'.status ≢ a.status
    → (e : AlertTimeline) × (rest : List AlertTimeline) × ((respond
          (serve outside core request ctx q)
          w).1.committed.alert_timeline
        ≡ w.committed.alert_timeline ++ e ∷ rest)
      × Tells id ctx.user.id a.status a'.status e
status_change_told outside core request ctx q w id {a} {a'} found after changed =
    told (respond (serve outside core request ctx q) w).1.committed
      (serve-Effect outside core request ctx w q) after
  where
    told :
        (db' : DetectionDb)
        → Effect ctx.user.id w.committed db'
        → find_alert id db' ≡ some a'
        → (e : AlertTimeline) × (rest : List AlertTimeline) × (db'.alert_timeline
            ≡ w.committed.alert_timeline ++ e ∷ rest)
          × Tells id ctx.user.id a.status a'.status e
    told db' (untouched same) here =
        absurd (changed (ap (λ (b : Alert). b.status) (one_row (rw same at here) found)))
    told db' (annotated m status _) here = elim (Moved-Followed id w.committed db' m found) [
      | rewritten _ _ there ↦
          let one = one_row here there in
          absurd (changed (ap (λ (b : Alert). b.status) one ∙ status a))
      | left there ↦ absurd (changed (ap (λ (b : Alert). b.status) (one_row here there)))
    ]
    told db' (acknowledged m from to e rest split tells) here =
        elim (Moved-Followed id w.committed db' m found) [
          | rewritten same one there ↦
              let now = ap (λ (b : Alert). b.status) (one_row there here) in
              let was = ap (λ (b : Alert). b.status) one in
              (
                e,
                rest,
                rw split at m.timeline,
                retell same (sym from ∙ was) (sym (to a) ∙ now) tells,
              )
          | left there ↦ absurd (changed (ap (λ (b : Alert). b.status) (one_row here there)))
        ]
    told db' (settled m s from to status e rest split tells) here =
        elim (Moved-Followed id w.committed db' m found) [
          | rewritten same one there ↦
              let now = ap (λ (b : Alert). b.status) (one_row there here) in
              let was = ap (λ (b : Alert). b.status) one in
              (e, rest, rw split at m.timeline, retell same was (sym (status a) ∙ now) tells)
          | left there ↦ absurd (changed (ap (λ (b : Alert). b.status) (one_row here there)))
        ]
