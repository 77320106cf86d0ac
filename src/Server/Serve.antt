-- ===== src/Server/Serve.antt =====
-- internal/server/server.go: the routes of `createMux`, over what the server keeps. Requests are
-- served one at a time here.
use nsqlite.Prelude.{
  Bool, ◌&&◌, ◌||◌, List, [], ◌∷◌, Option, none, some, Text, codes, text_eq, trim_prefix,
  if◌then◌else◌,
}
use nsqlite.Auth.Tokens.{Crypto}
use nsqlite.Auth.Check.{AuthState}
use nsqlite.Auth.Requests.{Access, authorize_rpc_request, authorize_rqlite_request}
use nsqlite.Db.Types.{Engine}
use nsqlite.Db.State.{Db, Outcome, done, waits, fatal}
use nsqlite.Server.Query.{VdlQuery, VdlQueryResult}
use nsqlite.Server.Request.{Parsed}
use nsqlite.Server.Rqlite.{
  EndpointMode, query_mode, execute_mode, request_mode, Response, handle_rqlite,
}
use nsqlite.Server.Rpc.{RpcBody, RpcAnswer, rpc_handler}

pub data Route : Type 0 where
  rpc : (rpc_name operation_name : Text) → Route
  rqlite : EndpointMode → Route

-- A pattern with GET takes HEAD too.
abbrev pub is_get_or_head : Text → Bool
is_get_or_head method = text_eq method (codes "GET") || text_eq method (codes "HEAD")

unfoldable pub db_route : Text → Text → Option Route
db_route method name =
    if text_eq name (codes "query") && (is_get_or_head method || text_eq method (codes "POST"))
    then some (rqlite query_mode)
    else if text_eq name (codes "execute") && text_eq method (codes "POST")
    then some (rqlite execute_mode)
    else if text_eq name (codes "request") && text_eq method (codes "POST")
    then some (rqlite request_mode)
    else none

-- `createMux`, by the method and the segments of the path.
unfoldable pub route : Text → List Text → Option Route
unfolding db_route
route method (top ∷ name ∷ []) = if text_eq top (codes "db") then db_route method name else none
route method (top ∷ rpc_name ∷ operation_name ∷ []) =
    if text_eq top (codes "rpc") && text_eq method (codes "POST")
    then some (rpc rpc_name operation_name)
    else none
route method _ = none

-- A request, with its body as the generated code reads it for an RPC, and the user name
-- and the password of `r.BasicAuth()`; `queries` is what `rqliteQueriesFromRequest` gives.
pub record HttpRequest : Type 0 where
  pub method : Text
  pub path : List Text
  pub authorization : Text
  pub basic : Option (Text × Text)
  pub rpc_body : RpcBody
  pub queries : Parsed (List VdlQuery)
  pub transaction : Bool

-- `Server`, with the database that it serves.
pub record Serving (W : Type 0) : Type 0 where
  pub auth : AuthState
  pub db : Db W

pub data Reply : Type 0 where
  rpc_reply : RpcAnswer → Reply
  rqlite_reply : Response (List VdlQueryResult) → Reply
  not_found : Reply

-- A request ends with a reply, waits for a mutex, or is stopped by a fatal error.
pub data Served (W : Type 0) : Type 0 where
  replied : Reply → Serving W → Served W
  held_up : Serving W → Served W
  stopped : Served W

abbrev pub reply_with : {W A : Type 0} → (A → Reply) → AuthState → Outcome W A → Served W
reply_with f auth (done a t) = replied (f a) (record { auth = auth; db = t })
reply_with f auth (waits t) = held_up (record { auth = auth; db = t })
reply_with f auth fatal = stopped

module _ (c : Crypto) where
  -- The authorization of each kind of request.
  unfoldable pub authorize : Route → HttpRequest → AuthState → Access × AuthState
  authorize (rpc rpc_name operation_name) r auth =
      authorize_rpc_request c auth r.authorization rpc_name operation_name
  authorize (rqlite mode) r auth = authorize_rqlite_request c auth r.authorization r.basic

module _ {W : Type 0} (c : Crypto) (e : Engine W) where
  unfoldable pub serve_route : Route → HttpRequest → Access × AuthState → Db W → Served W
  serve_route (rpc rpc_name operation_name) r (access, auth) db =
      reply_with rpc_reply auth (rpc_handler e rpc_name operation_name access r.rpc_body db)
  serve_route (rqlite mode) r (access, auth) db =
      reply_with rqlite_reply auth (handle_rqlite e mode access r.queries r.transaction db)

  unfoldable pub serve_at : Option Route → HttpRequest → Serving W → Served W
  unfolding authorize serve_route
  serve_at none r s = replied not_found s
  serve_at (some to) r s = serve_route to r (authorize c to r s.auth) s.db

  -- A request, by its route.
  unfoldable pub serve : HttpRequest → Serving W → Served W
  unfolding route serve_at
  serve r s = serve_at (route r.method r.path) r s

-- The token that a request presents on its route.
unfoldable pub token_at : Route → HttpRequest → Text
token_at (rpc rpc_name operation_name) r =
    trim_prefix (trim_prefix r.authorization (codes "Bearer ")) (codes "bearer ")
token_at (rqlite mode) r = elim r.basic [
  | some (user, password) ↦ password
  | none ↦ trim_prefix (trim_prefix r.authorization (codes "Bearer ")) (codes "bearer ")
]
