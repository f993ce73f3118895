-- ===== src/Tests/Registration.antt =====
-- A registration, what it refuses, and the first login.
use sentinel_auth.Prelude.{some, string_eq, ◌≡◌, refl}
use sentinel_auth.Core.{Result, raise, http, World, respond}
use sentinel_auth.Auth.Login.{LoginRequest}
use sentinel_auth.Auth.Register.{
  UserRegisterRequest, UserRegisterResponse, register, check_request, check_free,
}
use sentinel_auth.Tests.Sample.{outside, world}

abbrev dave : UserRegisterRequest
dave = record { username = "dave_2"; email = some "dave@example.org"; password = "longenough" }

abbrev registered : Result UserRegisterResponse × World
registered = respond (register outside dave) world

abbrev credentials : LoginRequest
credentials = record { username = "dave_2"; password = "longenough" }

taken_name :
    (respond (register outside (record dave { username = "alice" })) world).0
    ≡ raise (http 409 "Username already exists")
unfolding register check_request check_free
taken_name = refl

invalid_name :
    (respond (register outside (record dave { username = "dave two" })) world).0
    ≡ raise (http 422 "Username must be alphanumeric + underscore only")
unfolding register check_request
invalid_name = refl

invalid_email :
    (respond (register outside (record dave { email = some "dave" })) world).0
    ≡ raise (http 422 "Invalid email format")
unfolding register check_request
invalid_email = refl

taken_email :
    (respond (register outside (record dave { email = some "user@example.org" })) world).0
    ≡ raise (http 409 "Email already exists")
unfolding register check_request check_free
taken_email = refl
