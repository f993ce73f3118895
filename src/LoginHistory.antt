-- ===== src/LoginHistory.antt =====
-- app/login_history.py: the search of a SOC analyst over the login attempts. The role guard is
-- `require_roles` of app/authz.py, and FastAPI sees to 1 ≤ page and 1 ≤ limit ≤ 100.
pub mod Order
pub mod Pages
use Prim.Native.String.{◌++◌ as concat}
use mathlib.Core.Option.{map as map_option}
use sentinel_auth.Prelude.{
  given, ℕ, zero, suc, String, Bool, true, false, not, ◌&&◌, ◌||◌, ◌-◌, ◌*◌, Option, none, some,
  List, [], ◌∷◌, ◌++◌, map, if◌then◌else◌, ◌==◌, nat_eq, string_eq, is_value, is_some, leb, ltb,
  where_, length,
}
use sentinel_auth.Core.{Time, Uuid, Outside, ActionOf, pure, ◌>>=◌, ◌>>◌, raise_if, query}
use sentinel_auth.Detection.Tables.{RiskLevel, AttemptStatus, Decision, LoginAttempt, DetectionDb}
use sentinel_auth.Pipeline.Features.{take}
use sentinel_auth.Pipeline.Levels.{level_value, decision_value}

abbrev pub failed_outcomes : List String
failed_outcomes = "failure" ∷ "mfa_failed" ∷ []

abbrev pub risk_levels : List String
risk_levels = "low" ∷ "medium" ∷ "high" ∷ "critical" ∷ []

abbrev pub search_outcomes : List String
search_outcomes = "success" ∷ "failure" ∷ []

abbrev pub is_one_of : List String → String → Bool
is_one_of [] s = false
is_one_of (t ∷ ts) s = s == t || is_one_of ts s

pub record LoginAttemptItem : Type 0 where
  pub id : String
  pub event_id : String
  pub user_id : Option String
  pub username_attempted : Option String
  pub outcome : String
  pub mfa_used : Bool
  pub ip_address : Option String
  pub user_agent : Option String
  pub device_fingerprint : Option String
  pub timestamp : Time
  pub status : String
  pub risk_level : Option String
  pub detection_decision : Option String
  pub policy_id : Option String
  pub primary_alert_id : Option String
  pub request_id : Option String

pub record LoginAttemptListResponse : Type 0 where
  pub attempts : List LoginAttemptItem
  pub total : ℕ
  pub page : ℕ
  pub limit : ℕ

-- The query parameters.
pub record Search : Type 0 where
  pub user_id : Option Uuid
  pub username : Option String
  pub from_date : Option Time
  pub to_date : Option Time
  pub ip_address : Option String
  pub outcome : Option String
  pub risk_level : Option String
  pub page : ℕ
  pub limit : ℕ

abbrev status_value : AttemptStatus → String
status_value AttemptStatus.pending = "pending"
status_value AttemptStatus.processed = "processed"
status_value AttemptStatus.failed = "failed"

abbrev pub attempt_to_dict : Outside → LoginAttempt → LoginAttemptItem
attempt_to_dict outside a = record {
  id = outside.uuid_text a.id;
  event_id = outside.uuid_text a.event_id;
  user_id = map_option outside.uuid_text a.user_id;
  username_attempted = a.username_attempted;
  outcome = a.outcome;
  mfa_used = a.mfa_used;
  ip_address = given a.ip_address;
  user_agent = a.user_agent;
  device_fingerprint = a.device_fingerprint;
  timestamp = a.timestamp;
  status = status_value a.status;
  risk_level = map_option level_value a.risk_level;
  detection_decision = map_option decision_value a.detection_decision;
  policy_id = map_option outside.uuid_text a.policy_id;
  primary_alert_id = map_option outside.uuid_text a.primary_alert_id;
  request_id = some (outside.uuid_text a.request_id);
}

-- A filter that is not set lets every row through; a column that is NULL equals nothing.
abbrev pub if_given {ℓ} : {A : Type ℓ} → (A → Bool) → Option A → Bool
if_given p none = true
if_given p (some v) = p v

abbrev text_is : Option String → String → Bool
text_is none s = false
text_is (some t) s = t == s

abbrev has_outcome : LoginAttempt → String → Bool
has_outcome a o =
    if o == "failure"
    then is_one_of failed_outcomes a.outcome
    else if o == "success"
    then a.outcome == "success"
    else true

unfoldable pub matches : Search → LoginAttempt → Bool
matches s a =
    if_given (is_value a.user_id) s.user_id
    && if_given (text_is a.username_attempted) (given s.username)
    && if_given (λ t. leb t a.timestamp) s.from_date
    && if_given (λ t. ltb a.timestamp t) s.to_date
    && if_given (text_is a.ip_address) (given s.ip_address)
    && if_given (has_outcome a) s.outcome
    && if_given (text_is (map_option level_value a.risk_level)) (given s.risk_level)

-- `order_by(timestamp.desc(), id.desc())`
abbrev pub comes_first : LoginAttempt → LoginAttempt → Bool
comes_first a b = ltb b.timestamp a.timestamp || (a.timestamp == b.timestamp && leb b.id a.id)

abbrev pub insert_newest : LoginAttempt → List LoginAttempt → List LoginAttempt
insert_newest a [] = a ∷ []
insert_newest a (b ∷ bs) =
    let rest = insert_newest a bs in if comes_first a b then a ∷ (b ∷ bs) else b ∷ rest

unfoldable pub newest_first : List LoginAttempt → List LoginAttempt
newest_first [] = []
newest_first (a ∷ rest) = insert_newest a (newest_first rest)

-- `.offset(n)`
abbrev pub drop {ℓ} : {A : Type ℓ} → ℕ → List A → List A
drop zero xs = xs
drop (suc n) [] = []
drop (suc n) (x ∷ xs) = drop n xs

abbrev pub is_before : Option Time → Option Time → Bool
is_before (some a) (some b) = ltb a b
is_before _ _ = true

unfoldable pub check_search : Search → ActionOf DetectionDb (Unit {0})
check_search s = do
  raise_if (not (if_given (is_one_of search_outcomes) s.outcome)) 400
      ("outcome must be one of ['success', 'failure']")
  raise_if (not (if_given (is_one_of risk_levels) s.risk_level)) 400
      ("risk_level must be one of ['low', 'medium', 'high', 'critical']")
  raise_if (not (is_before s.from_date s.to_date)) 400 "from_date must be earlier than to_date"

abbrev pub found : Search → DetectionDb → List LoginAttempt
found s db = newest_first (where_ (matches s) db.login_attempts)

unfoldable pub list_login_attempts :
    Outside → Search → ActionOf DetectionDb LoginAttemptListResponse
list_login_attempts outside s = do
  check_search s
  rows ← query (found s)
  pure (record {
    attempts = map (attempt_to_dict outside) (take s.limit (drop ((s.page - 1) * s.limit) rows));
    total = length rows;
    page = s.page;
    limit = s.limit;
  })
