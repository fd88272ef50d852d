-- ===== src/Admin/Access.antt =====
-- The dependencies of an endpoint for administrators: the gateway's header, then the user and the role.
use api_gateways.Base.{true, Option, some, List, Text, codes, text_in, ◌≡◌}
use api_gateways.Gateway.Outcome.{Outcome, done, http, raised, ◌>>=◌}
use api_gateways.Gateway.Kong.{given}
use api_gateways.Gateway.Admission.{verify_kong_header}
use api_gateways.Gateway.Tokens.{User, require_admin}

-- What `verify_kong_header`, `get_current_user` and `require_admin` come to, the second as an argument.
unfoldable pub admin_access : Option Text → Text → Option Text → Outcome User → Outcome User
unfolding verify_kong_header require_admin
admin_access setting method header user =
    verify_kong_header setting method header >>= (λ _. user >>= require_admin)

-- The claims of the user have the role.
abbrev pub IsAdmin : User → Type 0
IsAdmin user =
    (roles : List Text) × (user.realm_access ≡ given (some roles))
    × (text_in (codes "admin") roles ≡ true)

-- A handler that changes the state runs only after the dependencies.
abbrev pub guarded {ℓ} :
    {S : Type 0} {A : Type ℓ} → Outcome User → S → S × Outcome A → S × Outcome A
guarded (done user) s result = result
guarded (http status) s result = (s, http status)
guarded (raised e) s result = (s, raised e)
