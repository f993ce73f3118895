-- ===== src/Core/Client.antt =====
-- What the handlers read from an HTTP request (app/client_ip.py, app/device_fingerprint.py).
use Prim.Native.String.{◌++◌ as concat}
use sentinel_auth.Prelude.{String, Option, or_else, List}
use sentinel_auth.Core.Externals.{Outside}

-- `authorization` holds the parts of the Authorization header, split at white space; `none` stands
-- for a header that is missing or empty.
pub record HttpRequest : Type 0 where
  pub client_host : Option String
  pub authorization : Option (List String)
  pub user_agent : Option String
  pub accept_language : Option String
  pub accept_encoding : Option String

unfoldable pub get_client_ip : HttpRequest → String
get_client_ip req = or_else req.client_host "unknown"

unfoldable pub fingerprint_material : Option String → Option String → Option String → String
fingerprint_material user_agent accept_language accept_encoding =
    concat (or_else user_agent "")
      (concat "|" (concat (or_else accept_language "") (concat "|" (or_else accept_encoding ""))))

unfoldable pub hash_fingerprint : Outside → String → String
hash_fingerprint outside fingerprint = outside.sha256_hexdigest fingerprint

unfoldable pub fingerprint_from_request : Outside → HttpRequest → String
unfolding hash_fingerprint fingerprint_material
fingerprint_from_request outside req =
    hash_fingerprint outside
      (fingerprint_material req.user_agent req.accept_language req.accept_encoding)
