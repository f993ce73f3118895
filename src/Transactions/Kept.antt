-- ===== src/Transactions/Kept.antt =====
-- What every run of the handlers keeps.
use sentinel_auth.Prelude.{List, [], ◌∷◌, All}
use sentinel_auth.Core.{MfaTransaction, Outside, HttpRequest, World, Keeps-respond}
use sentinel_auth.Auth.Login.Kept.{login-Keeps}
use sentinel_auth.Devices.Waiting.{Lasting}
use sentinel_auth.Devices.Waiting.Kept.{request-Keeps}
use sentinel_auth.Devices.Waiting.Foreign.{complete-Keeps}
use sentinel_auth.Transactions.{Step, ask, approve, complete, log_in, verify, served, served_all}

module _ (Q : List MfaTransaction → Type 0) (outside : Outside) where
  abbrev pub KeptBy : Step × HttpRequest → Type 0
  KeptBy step =
      (w : World)
      → Q w.committed.mfa_transactions
      → Q (served outside step w).committed.mfa_transactions

  -- What is left to show of a step: an approval and an MFA code write another status.
  abbrev pub Marks : Step × HttpRequest → Type 0
  Marks (approve request_id ctx, req) = KeptBy (approve request_id ctx, req)
  Marks (verify request, req) = KeptBy (verify request, req)
  Marks _ = Unit {0}

  pub served-Kept : (lasting : Lasting Q) (step : Step × HttpRequest) → Marks step → KeptBy step
  served-Kept lasting (ask username password device_name, req) marks w h =
      Keeps-respond _ (request-Keeps Q lasting outside req username password device_name) w h
  served-Kept lasting (approve request_id ctx, req) marks w h = marks w h
  served-Kept lasting (complete request_id, req) marks w h =
      Keeps-respond _ (complete-Keeps Q lasting outside req request_id) w h
  served-Kept lasting (log_in request, req) marks w h =
      Keeps-respond _ (login-Keeps Q outside request req lasting.append lasting.link) w h
  served-Kept lasting (verify request, req) marks w h = marks w h

  pub served_all-Kept :
      (Allowed : Step × HttpRequest → Type 0)
      → ((step : Step × HttpRequest) → Allowed step → KeptBy step)
      → (steps : List (Step × HttpRequest)) (w : World) → All Allowed steps
      → Q w.committed.mfa_transactions
      → Q (served_all outside steps w).committed.mfa_transactions
  unfolding served_all
  served_all-Kept Allowed every [] w allowed h = h
  served_all-Kept Allowed every (step ∷ rest) w allowed h =
      served_all-Kept Allowed every rest (served outside step w) allowed.1
        (every step allowed.0 w h)
