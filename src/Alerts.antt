-- ===== src/Alerts.antt =====
-- app/alerts.py: the alerts of the SOC analysts, their status and their timeline. The role guard of
-- every handler is `require_roles` of app/authz.py.
pub mod Protect
pub mod Effects
pub mod Status
pub mod Timeline
use Prim.Native.String.{◌++◌ as concat}
use sentinel_auth.Prelude.{
  ℕ, String, Bool, true, false, not, ◌&&◌, ◌||◌, Option, none, some, List, [], ◌∷◌, ◌++◌, map,
  if◌then◌else◌, ◌==◌, nat_eq, string_eq, is_value, find, where_, update,
}
use sentinel_auth.Core.{
  Time, Uuid, Value, ActorType, Dict, Outside, HttpRequest, get_client_ip, http, ActionOf, pure,
  throw, ◌>>=◌, ◌>>◌, raise_if, or_raise, fetch, query, change, commit, call,
}
use sentinel_auth.Authz.{AuthContext}
use sentinel_auth.Actions.{SecurityAction, ActionRequest, action_value, put}
use sentinel_auth.Detection.Tables.{
  AlertStatus, TimelineEventType, LoginAttempt, SocAnalyst, Alert, AlertTimeline, DetectionDb,
}
use sentinel_auth.Detection.Client.{
  CoreBody, CoreReply, ActionOutcome, enforced, enforce_action_in_core_detailed,
}

abbrev pub status_text : AlertStatus → String
status_text AlertStatus.opened = "open"
status_text AlertStatus.acknowledged = "acknowledged"
status_text AlertStatus.resolved = "resolved"
status_text AlertStatus.false_positive = "false_positive"

-- The members of TIMELINE_EVENT_TYPES.
abbrev pub event_types : List (String × TimelineEventType)
event_types =
    ("created", TimelineEventType.created)
    ∷ ("assigned", TimelineEventType.assigned)
    ∷ ("unassigned", TimelineEventType.unassigned)
    ∷ ("acknowledged", TimelineEventType.acknowledged)
    ∷ ("escalated", TimelineEventType.escalated)
    ∷ ("note_added", TimelineEventType.note_added)
    ∷ ("status_changed", TimelineEventType.status_changed)
    ∷ ("resolved", TimelineEventType.resolved)
    ∷ ("false_positive", TimelineEventType.false_positive)
    ∷ []

abbrev pub find_alert : Uuid → DetectionDb → Option Alert
find_alert id db = find (λ a. a.id == id) db.alerts

abbrev pub fetch_alert : Uuid → ActionOf DetectionDb Alert
fetch_alert id = fetch (find_alert id) 404 "Alert not found"

abbrev pub update_alert : Uuid → (Alert → Alert) → DetectionDb → DetectionDb
update_alert id f db = record db { alerts = update (λ a. a.id == id) f db.alerts }

-- `_create_timeline_event`, whose row is appended.
abbrev pub create_timeline_event : AlertTimeline → ActionOf DetectionDb (Unit {0})
create_timeline_event e = change (λ db. record db { alert_timeline = db.alert_timeline ++ e ∷ [] })

-- An entry by the caller.
abbrev pub entry :
    AuthContext
    → HttpRequest
    → Uuid
    → TimelineEventType
    → Option Value
    → Option Value
    → Option String
    → AlertTimeline
entry ctx request alert_id event_type old_value new_value comment = record {
  alert_id = alert_id;
  event_type = event_type;
  actor_id = some ctx.user.id;
  actor_type = ActorType.user;
  old_value = old_value;
  new_value = new_value;
  comment = comment;
  ip_address = some (get_client_ip request);
}

abbrev pub append_notes : Option String → String → Option String
append_notes none text = some text
append_notes (some old) text =
    if old == "" then some text else some (concat old (concat "\n---\n" text))

-- Notes of a request, behind a prefix, joined to those of the alert.
abbrev pub noted : String → Option String → Option String → Option String
noted prefix none old = old
noted prefix (some text) old = if text == "" then old else append_notes old (concat prefix text)

abbrev pub is_open : AlertStatus → Bool
is_open AlertStatus.opened = true
is_open _ = false

-- `valid_from` of resolve_alert.
abbrev pub is_unsettled : AlertStatus → Bool
is_unsettled AlertStatus.opened = true
is_unsettled AlertStatus.acknowledged = true
is_unsettled _ = false

abbrev pub text_value : AlertStatus → Option Value
text_value s = some (Value.text (status_text s))

module _ (outside : Outside) (request : HttpRequest) (ctx : AuthContext) where
  unfoldable pub acknowledge_alert : Uuid → Option String → ActionOf DetectionDb (Option Alert)
  acknowledge_alert alert_id notes = do
    alert ← fetch_alert alert_id
    raise_if (not (is_open alert.status)) 400 (
        concat "Alert is "
          (concat (status_text alert.status) ", only open alerts can be acknowledged"))
    change (
        update_alert alert.id
          (λ a. record a { status = AlertStatus.acknowledged; notes = noted "" notes a.notes }))
    create_timeline_event (
        entry ctx request alert_id TimelineEventType.acknowledged (text_value alert.status)
          (text_value AlertStatus.acknowledged) notes)
    commit
    query (find_alert alert.id)

  abbrev pub resolved_status : String → AlertStatus
  resolved_status resolution =
      if resolution == "false_positive" then AlertStatus.false_positive else AlertStatus.resolved

  abbrev pub resolved_event : String → TimelineEventType
  resolved_event resolution =
      if resolution == "false_positive"
      then TimelineEventType.false_positive
      else TimelineEventType.resolved

  -- `resolved_by_id` is filled only when the caller is an analyst.
  abbrev pub resolver : Option SocAnalyst → Option Uuid → Option Uuid
  resolver none old = old
  resolver (some analyst) old = some analyst.id

  unfoldable pub resolve_alert : Uuid → String → Option String → ActionOf DetectionDb (Option Alert)
  resolve_alert alert_id resolution notes = do
    alert ← fetch_alert alert_id
    raise_if (not (is_unsettled alert.status)) 400
        (concat "Cannot resolve alert from status: " (status_text alert.status))
    analyst ← query (λ db. find (λ s. s.user_id == ctx.user.id) db.soc_analysts)
    now ← call outside.clock
    change (
        update_alert alert.id (λ a. record a {
          status = resolved_status resolution;
          resolution = some resolution;
          resolved_by_id = resolver analyst a.resolved_by_id;
          resolved_at = some now;
          notes = noted "Resolution: " notes a.notes;
        }))
    create_timeline_event (
        entry ctx request alert_id TimelineEventType.status_changed (text_value alert.status)
          (text_value (resolved_status resolution)) notes)
    create_timeline_event (
        entry ctx request alert_id (resolved_event resolution) none (some (Value.text resolution))
          notes)
    commit
    query (find_alert alert.id)

  abbrev assigned_event : Option Uuid → TimelineEventType
  assigned_event none = TimelineEventType.assigned
  assigned_event (some _) = TimelineEventType.status_changed

  abbrev uuid_value : Option Uuid → Option Value
  uuid_value none = none
  uuid_value (some id) = some (Value.uuid id)

  -- `parsed` is `UUID(request.assigned_to_id)`, `none` for its ValueError.
  unfoldable pub assign_alert :
      Uuid → String → (parsed : Option Uuid) → Option String → ActionOf DetectionDb (Option Alert)
  assign_alert alert_id assigned_to_id parsed notes = do
    alert ← fetch_alert alert_id
    assigned_uuid ← or_raise parsed 400 "assigned_to_id must be a valid UUID"
    fetch (λ db. find (λ s. s.id == assigned_uuid && s.is_active) db.soc_analysts) 400
        "assigned_to_id must reference an existing active SOC analyst"
    change (update_alert alert.id (λ a. record a { assigned_to_id = some assigned_uuid }))
    create_timeline_event (
        entry ctx request alert_id (assigned_event alert.assigned_to_id)
          (uuid_value alert.assigned_to_id) (some (Value.text assigned_to_id)) notes)
    commit
    query (find_alert alert.id)

  -- The refusal of an unknown type also names the known ones and the text given.
  unfoldable pub add_timeline_event :
      Uuid → String → Option String → ActionOf DetectionDb AlertTimeline
  add_timeline_event alert_id event_type comment = do
    fetch_alert alert_id
    (_, known) ←
        or_raise (find (λ t. t.0 == event_type) event_types) 400 "event_type must be one of"
    let event = entry ctx request alert_id known none none comment
    create_timeline_event event
    commit
    pure event

  unfoldable pub get_alert_timeline : Uuid → ActionOf DetectionDb (List AlertTimeline)
  get_alert_timeline alert_id = do
    fetch_alert alert_id
    query (λ db. where_ (λ e. e.alert_id == alert_id) db.alert_timeline)
