-- ===== src/Auth/Requests.antt =====
-- Who may call what: `authorizeRPCRequest` in internal/server/rpc.go and `authorizeRQLiteRequest`
-- in internal/server/rqlite.go.
use nsqlite.Prelude.{
  Bool, true, false, not, ◌&&◌, Option, none, some, Text, codes, text_eq, [], if◌then◌else◌,
}
use nsqlite.Auth.Tokens.{AuthRole, admin, Crypto}
use nsqlite.Auth.Check.{AuthState, auth_is_disabled, check_auth_with_cache, authenticate_request}

pub data AuthError : Type 0 where
  unauthorized forbidden : AuthError

-- `requestProps`
pub record RequestProps : Type 0 where
  pub role : AuthRole
  pub principal : Text

pub data Access : Type 0 where
  granted : RequestProps → Access
  refused : AuthError → Access

abbrev pub is_admin : AuthRole → Bool
is_admin admin = true
is_admin _ = false

abbrev pub is_call : Text → Text → Text → Text → Bool
is_call rpc_name operation_name rpc operation =
    text_eq rpc_name rpc && text_eq operation_name operation

abbrev pub grant : Option (AuthRole × Text) → Access
grant none = refused unauthorized
grant (some (role, principal)) = granted (record { role = role; principal = principal })

-- `System.status` is for administrators.
abbrev pub grant_call : Bool → Option (AuthRole × Text) → Access
grant_call status none = refused unauthorized
grant_call status (some (role, principal)) =
    if status && not (is_admin role)
    then refused forbidden
    else granted (record { role = role; principal = principal })

module _ (c : Crypto) where
  unfoldable pub authorize_rpc_request : AuthState → Text → Text → Text → Access × AuthState
  authorize_rpc_request s authorization rpc_name operation_name =
      if is_call rpc_name operation_name (codes "System") (codes "health")
      then (granted (record { role = admin; principal = [] }), s)
      else (
        grant_call (is_call rpc_name operation_name (codes "System") (codes "status"))
            (authenticate_request c s authorization).0,
        (authenticate_request c s authorization).1,
      )

  -- `basic` is the user name and the password of r.BasicAuth().
  unfoldable pub authorize_rqlite_request :
      AuthState → Text → Option (Text × Text) → Access × AuthState
  authorize_rqlite_request s authorization basic =
      if auth_is_disabled s
      then (granted (record { role = admin; principal = [] }), s)
      else elim basic [
        | some (user, password) ↦
            (grant (check_auth_with_cache c s password).0, (check_auth_with_cache c s password).1)
        | none ↦ (
          grant (authenticate_request c s authorization).0,
          (authenticate_request c s authorization).1,
        )
      ]
