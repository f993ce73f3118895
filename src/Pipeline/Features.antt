-- ===== src/Pipeline/Features.antt =====
-- app/detection.py, build_features: the six features of a login attempt, from the attempts before it.
use sentinel_auth.Prelude.{
  ℕ, zero, suc, ◌-◌, ◌*◌, ◌/◌, ◌%◌, String, Bool, true, false, not, ◌&&◌, Option, none, some, List,
  [], ◌∷◌, map, if◌then◌else◌, given, ◌==◌, string_eq, nat_eq, is_value, contains, length, count,
  where_, leb, ltb,
}
use sentinel_auth.Core.{Time, Uuid, day}
use sentinel_auth.Detection.Tables.{LoginAttempt}
use sentinel_auth.Policies.Config.{Arithmetic}
use sentinel_auth.Pipeline.Compare.{number_of_bool}

pub record Features (N : Type 0) : Type 0 where
  pub hour_of_day : ℕ
  pub fail_count_24h : ℕ
  pub ip_change_rate_7d : N
  pub new_device : Bool
  pub average_login_interval_seconds : N
  pub deviation_score : N

abbrev pub device_history_window_days : ℕ
device_history_window_days = 30

abbrev pub hour : Time
hour = 3_600_000_000

abbrev same_text : Option String → Option String → Bool
same_text none none = true
same_text (some s) (some t) = s == t
same_text _ _ = false

-- The attempts of the user in [start, now). A start before the epoch is the epoch.
abbrev pub in_window : Uuid → Time → Time → LoginAttempt → Bool
in_window user_id start now a =
    is_value a.user_id user_id && leb start a.timestamp && ltb a.timestamp now

-- `.order_by(timestamp.desc())`
abbrev insert_desc : Time → List Time → List Time
insert_desc t [] = t ∷ []
insert_desc t (u ∷ us) = let rest = insert_desc t us in if leb u t then t ∷ (u ∷ us) else u ∷ rest

unfoldable pub sort_desc : List Time → List Time
sort_desc [] = []
sort_desc (t ∷ ts) = insert_desc t (sort_desc ts)

-- `.limit(n)`
abbrev pub take {ℓ} : {A : Type ℓ} → ℕ → List A → List A
take zero xs = []
take (suc n) [] = []
take (suc n) (x ∷ xs) = x ∷ take n xs

unfoldable pub gaps : List Time → List ℕ
gaps [] = []
gaps (earlier ∷ []) = []
gaps (earlier ∷ later ∷ rest) =
    let more = gaps (later ∷ rest) in if leb later earlier then (earlier - later) ∷ more else more

-- The values of a column of the given rows, NULL left out.
abbrev known : (LoginAttempt → Option String) → List LoginAttempt → List String
known column [] = []
known column (a ∷ rest) =
    let more = known column rest in elim (column a) [ none ↦ more | some s ↦ s ∷ more ]

-- Whether the device is not among those of the given attempts.
abbrev pub new_among : LoginAttempt → List LoginAttempt → Bool
new_among attempt history = elim (given attempt.device_fingerprint) [
  | some fingerprint ↦ not (contains (known (λ a. a.device_fingerprint) history) fingerprint)
  | none ↦ elim (given attempt.user_agent) [
    | some agent ↦ not (contains (known (λ a. a.user_agent) history) agent)
    | none ↦ false
  ]
]

abbrev pub new_for : LoginAttempt → Time → List LoginAttempt → Option Uuid → Bool
new_for attempt now rows none = false
new_for attempt now rows (some user_id) =
    new_among attempt (where_ (in_window user_id (now - device_history_window_days * day) now) rows)

unfoldable pub compute_new_device : LoginAttempt → Time → List LoginAttempt → Bool
compute_new_device attempt now rows = new_for attempt now rows attempt.user_id

abbrev signal_of : LoginAttempt → String
signal_of attempt = elim (given attempt.device_fingerprint) [
  | some _ ↦ "fingerprint"
  | none ↦ elim (given attempt.user_agent) [ some _ ↦ "user_agent_proxy" | none ↦ "unavailable" ]
]

unfoldable pub device_signal_source : LoginAttempt → String
device_signal_source attempt = elim attempt.user_id [
  | none ↦ "unavailable"
  | some _ ↦ signal_of attempt
]

module _ (A : Arithmetic) where
  abbrev zero_n : A.Number
  zero_n = A.decimal 0 0

  abbrev one_n : A.Number
  one_n = A.decimal 1 0

  -- Python's `min(1.0, x)` and `max(0.0, x)` keep their first argument unless the second is below,
  -- or above.
  abbrev pub min_one : A.Number → A.Number
  min_one x = if A.lt x one_n then x else one_n

  abbrev pub max_zero : A.Number → A.Number
  max_zero x = if A.lt zero_n x then x else zero_n

  abbrev rate : Option String → List LoginAttempt → A.Number
  rate none week = zero_n
  rate (some ip) [] = zero_n
  rate (some ip) (a ∷ rest) =
      let week = a ∷ rest in
      min_one (
        max_zero (
          A.sub one_n (
            A.div (A.of_nat (count (λ b. same_text b.ip_address (some ip)) week))
              (A.of_nat (length week)))))

  abbrev pub Interval : Type 0
  Interval = A.Number × A.Number

  abbrev deviation : Time → Time → A.Number → A.Number
  deviation now latest mean_gap = min_one (
      if A.eq mean_gap zero_n
      then zero_n
      else A.div (A.abs (A.sub (A.seconds (now - latest)) mean_gap)) mean_gap)

  -- The mean of the gaps, and how far the present gap is from it.
  abbrev interval_of : Time → Time → List ℕ → Interval
  interval_of now latest [] = (zero_n, zero_n)
  interval_of now latest (g ∷ gs) =
      let mean_gap = A.div (A.sum (map A.seconds (g ∷ gs))) (A.of_nat (length (g ∷ gs))) in
      (A.truncate mean_gap, deviation now latest mean_gap)

  abbrev interval : Time → List Time → Interval
  interval now [] = (zero_n, zero_n)
  interval now (latest ∷ rest) = interval_of now latest (gaps (latest ∷ rest))

  abbrev base_features : Time → Features A.Number
  base_features now = record {
    hour_of_day = now / hour % 24;
    fail_count_24h = 0;
    ip_change_rate_7d = zero_n;
    new_device = false;
    average_login_interval_seconds = zero_n;
    deviation_score = zero_n;
  }

  -- The features from the failures of the last day, the attempts of the last week, all attempts
  -- before, and the novelty of the device.
  abbrev pub derived :
      LoginAttempt → ℕ → List LoginAttempt → List LoginAttempt → Bool → Features A.Number
  derived attempt failures week before new_device =
      let now = attempt.timestamp in
      let recent = take 10 (sort_desc (map (λ (a : LoginAttempt). a.timestamp) before)) in
      let (average, deviation_score) = interval now recent in
      record {
        hour_of_day = now / hour % 24;
        fail_count_24h = failures;
        ip_change_rate_7d = rate (given attempt.ip_address) week;
        new_device = new_device;
        average_login_interval_seconds = average;
        deviation_score = deviation_score;
      }

  abbrev pub features_for : LoginAttempt → List LoginAttempt → Option Uuid → Features A.Number
  features_for attempt rows none = base_features attempt.timestamp
  features_for attempt rows (some user_id) =
      let now = attempt.timestamp in
      derived attempt
        (count (λ a. in_window user_id (now - day) now a && a.outcome == "failure") rows)
        (where_ (in_window user_id (now - 7 * day) now) rows)
        (where_ (in_window user_id 0 now) rows) (compute_new_device attempt now rows)

  unfoldable pub build_features : LoginAttempt → List LoginAttempt → Features A.Number
  build_features attempt rows = features_for attempt rows attempt.user_id

  -- `features.get(field)`
  unfoldable pub feature : String → Features A.Number → Option A.Number
  feature field f =
      if field == "hour_of_day"
      then some (A.of_nat f.hour_of_day)
      else (if field == "fail_count_24h"
          then some (A.of_nat f.fail_count_24h)
          else (if field == "ip_change_rate_7d"
              then some f.ip_change_rate_7d
              else (if field == "new_device"
                  then some (number_of_bool A f.new_device)
                  else (if field == "average_login_interval_seconds"
                      then some f.average_login_interval_seconds
                      else (if field == "deviation_score" then some f.deviation_score else none)))))
