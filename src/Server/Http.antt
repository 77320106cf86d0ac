-- ===== src/Server/Http.antt =====
-- internal/server: the limit of a body (middleware.go), the answers to errors (errors.go, rpc.go) and
-- the defaults of NewServer.
use nsqlite.Prelude.{
  ℕ, ◌*◌, ◌%◌, ◌^◌, ◌<◌, ◌≡◌, ◌↔◌, ◌++◌, Text, codes, is_empty, arith, if◌then◌else◌,
}
use nsqlite.Config.Durations.{is_positive}
use nsqlite.Util.Http.{JsonError}

-- `maxRequestSize`, with Go's product of 64-bit patterns
unfoldable pub max_request_size : ℕ → ℕ
max_request_size max_request_size_mb =
    if is_positive max_request_size_mb
    then max_request_size_mb * 1024 % 2 ^ 64 * 1024 % 2 ^ 64
    else 100 * 1024 * 1024

-- For a positive number of megabytes, the limit of a body is exact and positive as a 64-bit integer
-- just below 2^43 megabytes.
pub max_request_size-bounds :
    (mb : ℕ)
    → 0 < mb
    → mb < 2 ^ 63
    → ((max_request_size mb ≡ mb * 1048576) × (max_request_size mb < 2 ^ 63)) ↔ (mb < 2 ^ 43)
unfolding max_request_size
max_request_size-bounds mb h k = (λ r. ground arith, λ r. ground arith)

-- `NewServer`: the address to listen on.
unfoldable pub default_listen_host : Text → Text
default_listen_host host = if is_empty host then codes "0.0.0.0" else host

unfoldable pub default_listen_port : Text → Text
default_listen_port port = if is_empty port then codes "9876" else port

-- `addr` in `Start`
unfoldable pub listen_addr : Text → Text → Text
unfolding default_listen_host default_listen_port
listen_addr host port = default_listen_host host ++ codes ":" ++ default_listen_port port

-- An error of a handler: a `JSONError`, or another by its text.
pub data HandlerError : Type 0 where
  json_error : JsonError → HandlerError
  other_error : Text → HandlerError

-- What `errorHandler` writes.
pub data ErrorAnswer : Type 0 where
  json_body : (status : ℕ) (id error message : Text) → ErrorAnswer
  text_body : (status : ℕ) (text : Text) → ErrorAnswer

-- `http.StatusText`, of the statuses that the server uses
unfoldable pub error_answer_of : (ℕ → Text) → Text → HandlerError → ErrorAnswer
error_answer_of status_text error_id (json_error e) =
    let text = status_text e.http_status in
    json_body e.http_status error_id text (if is_empty e.safe_message then text else e.safe_message)
error_answer_of status_text error_id (other_error text) =
    text_body 500 (codes "Internal Server Error - " ++ error_id)

-- The message of `rpcErrorHandler` and `writeRPCError`.
unfoldable pub rpc_error_message : HandlerError → Text
rpc_error_message (json_error e) = if is_empty e.safe_message then e.error else e.safe_message
rpc_error_message (other_error text) = text
