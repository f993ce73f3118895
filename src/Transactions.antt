-- ===== src/Transactions.antt =====
-- The five handlers of Core that write to mfa_transactions (app/auth.py, app/devices.py).
pub mod Kept
pub mod Settled
pub mod Spent
use sentinel_auth.Prelude.{String, Option, List, [], ◌∷◌}
use sentinel_auth.Core.{Uuid, Outside, HttpRequest, World, respond}
use sentinel_auth.Auth.Login.{LoginRequest, login}
use sentinel_auth.Auth.Mfa.{MfaVerifyRequest, mfa_verify}
use sentinel_auth.Authz.{AuthContext}
use sentinel_auth.Devices.Approval.{request_trusted_device_approval}
use sentinel_auth.Devices.Completion.{approve_trusted_device, complete_trusted_device_login}

-- The requests that write to the transactions of Core.
pub data Step : Type 0 where
  ask : (username password : String) → (device_name : Option String) → Step
  approve : (request_id : Uuid) → AuthContext → Step
  complete : (request_id : Uuid) → Step
  log_in : LoginRequest → Step
  verify : MfaVerifyRequest → Step

-- What Core has committed after the request.
abbrev pub served : Outside → Step × HttpRequest → World → World
served outside (ask username password device_name, req) w =
    (respond (request_trusted_device_approval outside req username password device_name) w).1
served outside (approve request_id ctx, req) w =
    (respond (approve_trusted_device outside req request_id ctx) w).1
served outside (complete request_id, req) w =
    (respond (complete_trusted_device_login outside req request_id) w).1
served outside (log_in request, req) w = (respond (login outside request req) w).1
served outside (verify request, req) w = (respond (mfa_verify outside request req) w).1

unfoldable pub served_all : Outside → List (Step × HttpRequest) → World → World
served_all outside [] w = w
served_all outside (step ∷ rest) w = served_all outside rest (served outside step w)
