-- ===== src/Auth/Risk.antt =====
-- app/auth.py, _pre_token_risk: the verdict of Detection before a token exists.
use sentinel_auth.Prelude.{
  String, Bool, true, ◌&&◌, ◌||◌, Option, none, some, leb, if◌then◌else◌, ◌==◌, string_eq,
}
use sentinel_auth.Core.{
  is_internal_auth_configured, Outside, Verdict, Reply, unhandled, Action, pure, throw, ◌>>=◌, call,
}

abbrev pub is_gated_level : String → Bool
is_gated_level level = level == "high" || level == "critical"

abbrev pub gate : Bool → Option String → Option String
gate true (some level) = if is_gated_level level then some level else none
gate _ _ = none

abbrev pub risk_of_verdict : Verdict → Option String
risk_of_verdict v = if v.degraded then none else gate v.require_mfa v.risk_level

-- A body that is JSON and not an object has no `get`: that exception is not caught.
unfoldable pub risk_of_reply : Reply → Action (Option String)
risk_of_reply Reply.http_error = pure none
risk_of_reply (Reply.not_json _) = pure none
risk_of_reply (Reply.not_object status) =
    if leb 400 status then pure none else throw (unhandled "AttributeError")
risk_of_reply (Reply.object status v) =
    if leb 400 status then pure none else pure (risk_of_verdict v)

unfoldable pub pre_token_risk : Outside → Action (Option String)
unfolding risk_of_reply
pre_token_risk outside =
    if outside.detection_url_set
      && outside.run_pre_token_check
      && is_internal_auth_configured outside
    then (call outside.detection >>= risk_of_reply)
    else pure none
