-- ===== src/Pipeline/Redelivery.antt =====
-- A second delivery of an event.
use sentinel_auth.Prelude.{arith, ℕ, ◌+◌, String, ◌≡◌, refl, sym, subst, Option, none, some, List}
use sentinel_auth.Core.{
  Uuid, Outside, ok, WorldOf, respond, IsInternal, verify_internal_secret-passes,
}
use sentinel_auth.Actions.{ActionRequest}
use sentinel_auth.Detection.Tables.{LoginAttempt}
use sentinel_auth.Detection.Client.{CoreReply}
use sentinel_auth.Policies.Config.{Arithmetic}
use sentinel_auth.Pipeline.Features.{Features}
use sentinel_auth.Pipeline.Ml.{MlReply}
use sentinel_auth.Pipeline.Store.{Store, find_event}
use sentinel_auth.Pipeline.Events.{
  LoginEventRequest, LoginEventResponse, accepted, deliver_if, receive_login_event,
}
use sentinel_auth.Pipeline.Replay.{Found-IsStable, by_event}
use sentinel_auth.Pipeline.Runs.{Served, serve_all, serve_all-Stable}
use sentinel_auth.Pipeline.Answers.{answered-Stored}

-- The fresh identifiers that a delivery asks for before it looks the event up.
abbrev pub identifiers_for : Option Uuid → ℕ
identifiers_for none = 1
identifiers_for (some _) = 0

module _ (A : Arithmetic) (outside : Outside) (ml : ℕ → Uuid → Features A.Number → MlReply A.Number)
    (core : ℕ → ActionRequest → CoreReply) where
  abbrev W : Type 0
  W = WorldOf (Store A.Number)

  -- The answer to a delivery of an event that has its row.
  repeated :
      (rival : Option LoginAttempt) (again : LoginEventRequest A.Number) (secret : Option String)
      (w : W) {a : LoginAttempt}
      → IsInternal outside secret
      → (request_id : Option Uuid) → again.request_id ≡ request_id
      → find_event again.event_id w.committed ≡ some a
      → respond (receive_login_event A outside ml core rival again secret) w ≡ (
        ok (accepted again.event_id a),
        record w { working = w.committed; calls = w.calls + identifiers_for request_id },
      )
  unfolding receive_login_event
  repeated rival again secret w internal none asked found =
      let opened : W = record w { working = w.committed } in
      rw (verify_internal_secret-passes outside secret opened internal, asked)
        (rw (found, deliver_if) refl)
  repeated rival again secret w internal (some id) asked found =
      let opened : W = record w { working = w.committed } in
      rw (verify_internal_secret-passes outside secret opened internal, asked)
        (rw (found, deliver_if) (ground arith))

  -- When a delivery of an event has been answered, every later delivery of the same event, after any
  -- run of requests, whatever else it says, and whatever another delivery commits meanwhile, is
  -- answered with the same attempt; it changes nothing in the database and sends nothing, neither to
  -- the ML service nor to Core.
  pub redelivery_is_idle :
      (rival later_rival : Option LoginAttempt) (payload again : LoginEventRequest A.Number)
      (secret later_secret : Option String) (w : W) {r : LoginEventResponse} {w1 : W}
      (between : List (Served A outside))
      → IsInternal outside secret
      → IsInternal outside later_secret
      → again.event_id ≡ payload.event_id
      → respond (receive_login_event A outside ml core rival payload secret) w ≡ (ok r, w1)
      → let w2 = serve_all A outside between w1 in
        (r' : LoginEventResponse) × (respond
            (receive_login_event A outside ml core later_rival again later_secret)
            w2
          ≡ (
            ok r',
            record w2 {
              working = w2.committed;
              calls = w2.calls + identifiers_for again.request_id;
            },
          ))
        × (r'.login_attempt_id ≡ r.login_attempt_id)
  redelivery_is_idle rival later_rival payload again secret later_secret w {r} {w1} between first
        second same answered =
      let stored = answered-Stored A outside ml core rival payload secret w first answered in
      let (b, still, named) =
        serve_all-Stable A outside (Found-IsStable A (by_event payload.event_id) r.login_attempt_id)
          between w1 stored in
      (
        accepted again.event_id b,
        repeated later_rival again later_secret (serve_all A outside between w1) second
            again.request_id refl
            (subst (λ (i : Uuid). find_event i (serve_all A outside between w1).committed ≡ some b)
              (sym same) still),
        named,
      )
