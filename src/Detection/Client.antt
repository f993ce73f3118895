-- ===== src/Detection/Client.antt =====
-- app/internal_client.py: Detection asks Core for a protective action over HTTP.
use Prim.Native.String.{◌++◌ as concat}
use sentinel_auth.Prelude.{ℕ, String, Bool, Option, none, some, leb, if◌then◌else◌, is_some}
use sentinel_auth.Core.{Dict, Outside, is_internal_auth_configured, ActionOf, pure, ◌>>=◌, call}
use sentinel_auth.Actions.{ActionRequest}

-- The body of Core's answer, as far as it is read: `status` and `details`.
pub record CoreBody : Type 0 where
  pub status : Option String
  pub details : Option Dict

-- No response, or a response with its code, the code's text and its body, which is `none` when it is
-- not JSON or not an object.
pub data CoreReply : Type 0 where
  http_error : (exception : String) → CoreReply
  response : (status_code : ℕ) (code : String) → Option CoreBody → CoreReply

pub record ActionOutcome : Type 0 where
  pub response : Option CoreBody
  pub error : Option String

abbrev pub enforced : ActionOutcome → Bool
enforced o = is_some o.response

abbrev refused : String → ActionOutcome
refused error = record { response = none; error = some error }

abbrev body_or_empty : Option CoreBody → CoreBody
body_or_empty none = record { status = none; details = none }
body_or_empty (some b) = b

unfoldable pub outcome_of_reply : CoreReply → ActionOutcome
outcome_of_reply (CoreReply.http_error exception) = refused (concat "core_unreachable:" exception)
outcome_of_reply (CoreReply.response status code body) =
    if leb 400 status
    then refused (concat "core_http_" code)
    else record { response = some (body_or_empty body); error = none }

-- `core n a` is what the network answers to the n-th call, when it posts `a`.
unfoldable pub enforce_action_in_core_detailed :
    {D : Type 0}
    → Outside
    → (ℕ → ActionRequest → CoreReply)
    → ActionRequest
    → ActionOf D ActionOutcome
enforce_action_in_core_detailed outside core payload =
    if is_internal_auth_configured outside
    then (call (λ n. core n payload) >>= λ reply. pure (outcome_of_reply reply))
    else pure (refused "internal_auth_not_configured")
