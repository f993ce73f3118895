-- ===== src/Pipeline/History.antt =====
-- app/detection.py, build_features: only the past counts.
use sentinel_auth.Prelude.{
  where_, count, ◌-◌, ◌*◌, true, false, ◌&&◌, ◌≡◌, refl, ap, Option, none, some, List, ◌++◌, leb,
  All, ◌==◌, string_eq, where_-append_idle, count-append_idle, All-map, arith,
}
use sentinel_auth.Core.{Time, Uuid, day}
use sentinel_auth.Detection.Tables.{LoginAttempt}
use sentinel_auth.Policies.Config.{Arithmetic}
use sentinel_auth.Pipeline.Features.{
  in_window, new_among, new_for, derived, features_for, device_history_window_days,
  compute_new_device, build_features,
}

-- Attempts at or after a time.
abbrev pub NotBefore : Time → List LoginAttempt → Type 0
NotBefore now rows = All (λ (a : LoginAttempt). leb now a.timestamp ≡ true) rows

outside_window :
    (user_id : Uuid) (start now : Time) (rows : List LoginAttempt)
    → NotBefore now rows
    → All (λ (a : LoginAttempt). in_window user_id start now a ≡ false) rows
outside_window user_id start now rows h =
    All-map (λ (a : LoginAttempt). leb now a.timestamp ≡ true)
      (λ a. in_window user_id start now a ≡ false) rows (λ a late. ground arith) h

module _ (A : Arithmetic) (attempt : LoginAttempt) (rows later : List LoginAttempt)
    (late : NotBefore attempt.timestamp later) where
  where_late :
      (user_id : Uuid) (start : Time)
      → where_ (in_window user_id start attempt.timestamp) (rows ++ later)
        ≡ where_ (in_window user_id start attempt.timestamp) rows
  where_late user_id start =
      where_-append_idle (in_window user_id start attempt.timestamp) rows later
        (outside_window user_id start attempt.timestamp later late)

  count_late :
      (user_id : Uuid) (start : Time)
      → count
          (λ a. in_window user_id start attempt.timestamp a && a.outcome == "failure")
          (rows ++ later)
        ≡ count (λ a. in_window user_id start attempt.timestamp a && a.outcome == "failure") rows
  count_late user_id start =
      count-append_idle (λ a. in_window user_id start attempt.timestamp a && a.outcome == "failure")
        rows later
        (All-map (λ (a : LoginAttempt). in_window user_id start attempt.timestamp a ≡ false)
          (λ a. (in_window user_id start attempt.timestamp a && a.outcome == "failure") ≡ false)
          later (λ a off. rw off refl) (outside_window user_id start attempt.timestamp later late))

  new_for_late :
      (user_id : Option Uuid)
      → new_for attempt attempt.timestamp (rows ++ later) user_id
        ≡ new_for attempt attempt.timestamp rows user_id
  new_for_late none = refl
  new_for_late (some user_id) =
      ap (new_among attempt)
        (where_late user_id (attempt.timestamp - device_history_window_days * day))

  compute_new_device_late :
      compute_new_device attempt attempt.timestamp (rows ++ later)
      ≡ compute_new_device attempt attempt.timestamp rows
  unfolding compute_new_device
  compute_new_device_late = new_for_late attempt.user_id

  features_for_late :
      (user_id : Option Uuid)
      → features_for A attempt (rows ++ later) user_id ≡ features_for A attempt rows user_id
  features_for_late none = refl
  features_for_late (some user_id) =
      let failures = count_late user_id (attempt.timestamp - day) in
      let week = where_late user_id (attempt.timestamp - 7 * day) in
      let before = where_late user_id 0 in
      λ i. derived A attempt (failures i) (week i) (before i) (compute_new_device_late i)

  -- Attempts that are not earlier than the scored one change none of its features; neither does its
  -- own row, so that they are the same before and after it is stored.
  pub build_features-append :
      build_features A attempt (rows ++ later) ≡ build_features A attempt rows
  unfolding build_features
  build_features-append = features_for_late attempt.user_id
