-- ===== src/Util/Http.antt =====
-- internal/util/httputil: errors with a status, the chain of middlewares, and the client's address.
use mathlib.Core.List.{reverse}
use nsqlite.Prelude.{ℕ, List, [], ◌∷◌, Option, none, some, Text, is_empty, if◌then◌else◌}

-- `JSONError`, with the text of its error
pub record JsonError : Type 0 where
  pub error : Text
  pub http_status : ℕ
  pub safe_message : Text

-- `NewJSONError`, with its optional last argument
unfoldable pub new_json_error : ℕ → Text → List Text → JsonError
new_json_error status err [] = record { error = err; http_status = status; safe_message = [] }
new_json_error status err (m ∷ ms) = record { error = err; http_status = status; safe_message = m }

-- `ReadUserIP`, of the headers X-Real-Ip and X-Forwarded-For and the remote address.
unfoldable pub read_user_ip : Text → Text → Text → Text
read_user_ip real_ip forwarded_for remote_addr =
    let first = if is_empty real_ip then forwarded_for else real_ip in
    if is_empty first then remote_addr else first

-- What `ReadReqBodyBytes` has to read from: `io.ReadAll` gives the bytes or an error.
pub data Body : Type 0 where
  no_request no_body : Body
  body : Option (List ℕ) → Body

pub data BodyBytes : Type 0 where
  bytes : List ℕ → BodyBytes
  nil_request read_failed : BodyBytes

unfoldable pub read_req_body_bytes : Body → BodyBytes
read_req_body_bytes no_request = nil_request
read_req_body_bytes no_body = bytes []
read_req_body_bytes (body none) = read_failed
read_req_body_bytes (body (some b)) = bytes b

-- A handler changes the state of the response and gives an error or none.
abbrev pub HandlerFuncErr : Type 0 → Type 0 → Type 0 → Type 0
HandlerFuncErr Request State Error = Request → State → Option Error × State

abbrev pub Middleware : Type 0 → Type 0 → Type 0 → Type 0
Middleware Request State Error =
    HandlerFuncErr Request State Error → HandlerFuncErr Request State Error

module _ {Request State Error : Type 0} where
  -- One round of the loop after the other.
  unfoldable pub wrap_each :
      List (Middleware Request State Error)
      → HandlerFuncErr Request State Error
      → HandlerFuncErr Request State Error
  wrap_each [] handler = handler
  wrap_each (middleware ∷ middlewares) handler = wrap_each middlewares (middleware handler)

  -- The function that `CreateHandlerFuncBuilder` builds.
  unfoldable pub build_handler :
      (Request → Error → State → State)
      → HandlerFuncErr Request State Error
      → List (Middleware Request State Error)
      → Request
      → State
      → State
  unfolding wrap_each
  build_handler error_handler handler middlewares r s =
      let (e, s') = wrap_each (reverse middlewares) handler r s in
      elim e [ none ↦ s' | some x ↦ error_handler r x s' ]
