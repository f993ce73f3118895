-- ===== src/Alerts/Effects.antt =====
-- What one request does to the alerts and to the timeline.
use sentinel_auth.Prelude.{
  ℕ, String, Bool, true, false, not, ◌≡◌, refl, sym, Option, none, some, List, [], ◌∷◌, ◌++◌, ◌==◌,
  nat_eq, string_eq, find, update, Bool-cases, Option-cases, inl, inr, arith, ◌&&◌,
}
use sentinel_auth.Core.{
  Uuid, Outside, HttpRequest, WorldOf, ActionOf, respond, pure, ◌>>◌, is_internal_auth_configured,
}
use sentinel_auth.Authz.{AuthContext}
use sentinel_auth.Actions.{SecurityAction, ActionRequest}
use sentinel_auth.Detection.Tables.{
  AlertStatus, TimelineEventType, SocAnalyst, Alert, AlertTimeline, DetectionDb,
}
use sentinel_auth.Detection.Client.{CoreReply, enforce_action_in_core_detailed, outcome_of_reply}
use sentinel_auth.Alerts.{
  find_alert, is_open, is_unsettled, text_value, event_types, resolved_status, acknowledge_alert,
  resolve_alert, assign_alert, add_timeline_event,
}
use sentinel_auth.Alerts.Protect.{
  subject_of, action_request, record_outcome, request_security_action,
}

-- The requests that write. `core` is how Core answers during the request.
pub data AlertRequest : Type 0 where
  acknowledge : (alert_id : Uuid) (notes : Option String) → AlertRequest
  resolve : (alert_id : Uuid) (resolution : String) (notes : Option String) → AlertRequest
  assign :
      (alert_id : Uuid) (assigned_to_id : String) (parsed : Option Uuid) (notes : Option String)
      → AlertRequest
  act : (alert_id : Uuid) (action : SecurityAction) (reason : String) → AlertRequest
  note : (alert_id : Uuid) (event_type : String) (comment : Option String) → AlertRequest

-- The alert that a request names is found, rewritten by `change`, and `entries` are appended.
pub record Moved (db db' : DetectionDb) : Type 0 where
  pub id : Uuid
  pub target : Alert
  pub change : Alert → Alert
  pub entries : List AlertTimeline
  pub found : find_alert id db ≡ some target
  pub keeps_id : (a : Alert) → (change a).id ≡ a.id
  pub alerts : db'.alerts ≡ update (λ a. a.id == target.id) change db.alerts
  pub timeline : db'.alert_timeline ≡ db.alert_timeline ++ entries

-- An entry that tells of a change of status.
pub record Tells (id actor : Uuid) (before after : AlertStatus) (e : AlertTimeline) : Type 0 where
  pub about : e.alert_id ≡ id
  pub by : e.actor_id ≡ some actor
  pub from : e.old_value ≡ text_value before
  pub to : e.new_value ≡ text_value after

pub data Effect (actor : Uuid) (db db' : DetectionDb) : Type 0 where
  untouched : db' ≡ db → Effect actor db db'
  -- The status and the resolution stay.
  annotated :
      (m : Moved db db')
      → ((a : Alert) → (m.change a).status ≡ a.status)
      → ((a : Alert) → (m.change a).resolution ≡ a.resolution)
      → Effect actor db db'
  acknowledged :
      (m : Moved db db')
      → m.target.status ≡ AlertStatus.opened
      → ((a : Alert) → (m.change a).status ≡ AlertStatus.acknowledged)
      → (e : AlertTimeline) (rest : List AlertTimeline) → m.entries ≡ e ∷ rest
      → Tells m.id actor AlertStatus.opened AlertStatus.acknowledged e
      → Effect actor db db'
  settled :
      (m : Moved db db') (s : AlertStatus)
      → is_unsettled m.target.status ≡ true
      → is_unsettled s ≡ false
      → ((a : Alert) → (m.change a).status ≡ s)
      → (e : AlertTimeline) (rest : List AlertTimeline) → m.entries ≡ e ∷ rest
      → Tells m.id actor m.target.status s e
      → Effect actor db db'

opened_of_open : (s : AlertStatus) → not (is_open s) ≡ false → s ≡ AlertStatus.opened
opened_of_open s h = ground arith

module _ (outside : Outside) (core : ℕ → ActionRequest → CoreReply) (request : HttpRequest)
    (ctx : AuthContext) where
  unfoldable pub serve : AlertRequest → ActionOf DetectionDb (Unit {0})
  serve (AlertRequest.acknowledge id notes) =
      acknowledge_alert outside request ctx id notes >> pure tt
  serve (AlertRequest.resolve id resolution notes) =
      resolve_alert outside request ctx id resolution notes >> pure tt
  serve (AlertRequest.assign id text parsed notes) =
      assign_alert outside request ctx id text parsed notes >> pure tt
  serve (AlertRequest.act id action reason) =
      request_security_action outside core request ctx id action reason >> pure tt
  serve (AlertRequest.note id event_type comment) =
      add_timeline_event outside request ctx id event_type comment >> pure tt

  module _ (w : WorldOf DetectionDb) where
    abbrev After : AlertRequest → Type 0
    After q = Effect ctx.user.id w.committed (respond (serve q) w).1.committed

    acknowledge-Effect :
        (id : Uuid) (notes : Option String) → After (AlertRequest.acknowledge id notes)
    unfolding serve acknowledge_alert
    acknowledge-Effect id notes = elim (Option-cases (find_alert id w.committed)) [
      | inl missing ↦ rw missing (untouched refl)
      | inr (a, found) ↦ elim (Bool-cases (not (is_open a.status))) [
        | inl closed ↦ rw (found, closed) (untouched refl)
        | inr open_ ↦
            rw (found, open_)
              (acknowledged
                (record {
                  id = id;
                  target = a;
                  change = _;
                  entries = _ ∷ [];
                  found = found;
                  keeps_id = λ b. refl;
                  alerts = refl;
                  timeline = refl;
                })
                (opened_of_open a.status open_) (λ b. refl) _ [] refl
                (record {
                  about = refl;
                  by = refl;
                  from = rw (opened_of_open a.status open_) refl;
                  to = refl;
                }))
      ]
    ]

    not-eq-true : (b : Bool) → not b ≡ false → b ≡ true
    not-eq-true b h = ground arith

    resolved-settled :
        (resolution : String)
        → is_unsettled (resolved_status outside request ctx resolution) ≡ false
    resolved-settled resolution = ground arith

    resolve-Effect :
        (id : Uuid) (resolution : String) (notes : Option String)
        → After (AlertRequest.resolve id resolution notes)
    unfolding serve resolve_alert
    resolve-Effect id resolution notes = elim (Option-cases (find_alert id w.committed)) [
      | inl missing ↦ rw missing (untouched refl)
      | inr (a, found) ↦ elim (Bool-cases (not (is_unsettled a.status))) [
        | inl done ↦ rw (found, done) (untouched refl)
        | inr going ↦
            rw (found, going)
              (settled
                (record {
                  id = id;
                  target = a;
                  change = _;
                  entries = _ ∷ _ ∷ [];
                  found = found;
                  keeps_id = λ b. refl;
                  alerts = refl;
                  timeline = two_entries w.committed.alert_timeline _ _;
                })
                (resolved_status outside request ctx resolution) (not-eq-true _ going)
                (resolved-settled resolution) (λ b. refl) _ (_ ∷ []) refl
                (record { about = refl; by = refl; from = refl; to = refl }))
      ]
    ]
      where
        two_entries :
            (l : List AlertTimeline) (x y : AlertTimeline)
            → (l ++ x ∷ []) ++ y ∷ [] ≡ l ++ x ∷ y ∷ []
        two_entries [] x y = refl
        two_entries (z ∷ l) x y = rw (two_entries l x y) refl

    assign-Effect :
        (id : Uuid) (text : String) (parsed : Option Uuid) (notes : Option String)
        → After (AlertRequest.assign id text parsed notes)
    unfolding serve assign_alert
    assign-Effect id text none notes = elim (Option-cases (find_alert id w.committed)) [
      | inl missing ↦ rw missing (untouched refl)
      | inr (a, found) ↦ rw found (untouched refl)
    ]
    assign-Effect id text (some parsed) notes = elim (Option-cases (find_alert id w.committed)) [
      | inl missing ↦ rw missing (untouched refl)
      | inr (a, found) ↦
          elim (Option-cases
            (find (λ (s : SocAnalyst). s.id == parsed && s.is_active) w.committed.soc_analysts)) [
              | inl unknown ↦ rw (found, unknown) (untouched refl)
              | inr (s, known) ↦
                  rw (found, known)
                    (annotated
                      (record {
                        id = id;
                        target = a;
                        change = _;
                        entries = _ ∷ [];
                        found = found;
                        keeps_id = λ b. refl;
                        alerts = refl;
                        timeline = refl;
                      })
                      (λ b. refl) (λ b. refl))
            ]
    ]

    update-same : (p : Alert → Bool) (l : List Alert) → update p (λ a. a) l ≡ l
    update-same p [] = refl
    update-same p (a ∷ l) = ground (arith, update-same p l)

    -- A request that only writes on the timeline.
    written :
        (id : Uuid) {a : Alert} (e : AlertTimeline)
        → find_alert id w.committed ≡ some a
        → Effect ctx.user.id w.committed
            (record w.committed { alert_timeline = w.committed.alert_timeline ++ e ∷ [] })
    written id {a} e found =
        annotated
          (record {
            id = id;
            target = a;
            change = λ b. b;
            entries = e ∷ [];
            found = found;
            keeps_id = λ b. refl;
            alerts = sym (update-same (λ b. b.id == a.id) w.committed.alerts);
            timeline = refl;
          })
          (λ b. refl) (λ b. refl)

    note-Effect :
        (id : Uuid) (event_type : String) (comment : Option String)
        → After (AlertRequest.note id event_type comment)
    unfolding serve add_timeline_event
    note-Effect id event_type comment = elim (Option-cases (find_alert id w.committed)) [
      | inl missing ↦ rw missing (untouched refl)
      | inr (a, found) ↦
          elim (Option-cases
            (find (λ (t : String × TimelineEventType). t.0 == event_type) event_types)) [
              | inl unknown ↦ rw (found, unknown) (untouched refl)
              | inr (t, known) ↦ rw (found, known) (written id _ found)
            ]
    ]

    act-Effect :
        (id : Uuid) (action : SecurityAction) (reason : String)
        → After (AlertRequest.act id action reason)
    unfolding serve request_security_action record_outcome enforce_action_in_core_detailed
    act-Effect id action reason = elim (Option-cases (find_alert id w.committed)) [
      | inl missing ↦ rw missing (untouched refl)
      | inr (a, found) ↦ elim (Option-cases (subject_of a w.committed)) [
        | inl nobody ↦ rw (found, nobody) (untouched refl)
        | inr ((user_id, attempt), known) ↦
            let asked = action_request outside core request ctx id user_id attempt action reason in
            elim (Bool-cases (is_internal_auth_configured outside)) [
              | inr off ↦ rw (found, known, off) (written id _ found)
              | inl on ↦ elim (Option-cases (outcome_of_reply (core w.calls asked)).response) [
                | inl failed ↦ rw (found, known, on, failed) (written id _ found)
                | inr (body, done) ↦ rw (found, known, on, done) (written id _ found)
              ]
            ]
      ]
    ]

    -- Every request, granted or refused, has one of the effects.
    pub serve-Effect :
        (q : AlertRequest) → Effect ctx.user.id w.committed (respond (serve q) w).1.committed
    serve-Effect (AlertRequest.acknowledge id notes) = acknowledge-Effect id notes
    serve-Effect (AlertRequest.resolve id resolution notes) = resolve-Effect id resolution notes
    serve-Effect (AlertRequest.assign id text parsed notes) = assign-Effect id text parsed notes
    serve-Effect (AlertRequest.act id action reason) = act-Effect id action reason
    serve-Effect (AlertRequest.note id event_type comment) = note-Effect id event_type comment
