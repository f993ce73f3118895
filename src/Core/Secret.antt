-- ===== src/Core/Secret.antt =====
-- The shared secret of the two services (app/internal_auth.py).
use Prim.Native.String.{count as char_count}
use sentinel_auth.Prelude.{
  String, Bool, not, ◌&&◌, ◌||◌, Option, none, some, or_else, ltb, if◌then◌else◌, ◌==◌, string_eq,
  is_some,
}
use sentinel_auth.Core.Externals.{Outside}
use sentinel_auth.Core.Request.{http, unhandled, ActionOf, throw, raise_if}

module _ (outside : Outside) where
  abbrev pub validated : String → Option String
  validated value =
      if value == "" || value == "changeme-in-production" || ltb (char_count value) 32
      then none
      else some value

  -- `none` stands for InternalAuthConfigurationError.
  unfoldable pub get_internal_secret : Option String
  get_internal_secret = elim outside.internal_secret [
    | none ↦ none
    | some raw ↦ validated (outside.strip raw)
  ]

  unfoldable pub is_internal_auth_configured : Bool
  unfolding get_internal_secret
  is_internal_auth_configured = is_some get_internal_secret

  -- `secrets.compare_digest` raises TypeError on a text that is not ASCII.
  abbrev pub compare_secret : {D : Type 0} → String → Option String → ActionOf D (Unit {0})
  compare_secret given none = throw (http 503 "Internal authentication is not configured")
  compare_secret given (some secret) =
      if outside.is_ascii given && outside.is_ascii secret
      then raise_if (not (given == secret)) 401 "Invalid or missing X-Internal-Secret"
      else throw (unhandled "TypeError")

  unfoldable pub verify_internal_secret : {D : Type 0} → Option String → ActionOf D (Unit {0})
  unfolding get_internal_secret
  verify_internal_secret x_internal_secret =
      compare_secret (or_else x_internal_secret "") get_internal_secret
