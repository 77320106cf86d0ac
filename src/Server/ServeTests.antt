-- ===== src/Server/ServeTests.antt =====
-- The theorems on a server and its clients at a small server.
use nsqlite.Prelude.{
  ◌≡◌, ◌⊎◌, refl, false, [], ◌∷◌, ◌++◌, none, some, Text, codes, text_eq, trim_prefix, has_prefix,
}
use nsqlite.Auth.Tokens.{
  admin, Crypto, new_auth_tokens, tokens_of, get_hash_algo, check_auth_token, hex,
}
use nsqlite.Auth.Check.{
  auth_is_disabled, check_auth_with_cache, check_tokens, cache_load, cache_store, scan,
  authenticate_request,
}
use nsqlite.Auth.Requests.{authorize_rpc_request}
use nsqlite.Auth.Cache.{NoCollision}
use nsqlite.Config.Settings.{
  auth_tokens, read_write_auth_tokens, read_only_auth_tokens, split_auth_tokens, fields_from,
}
use nsqlite.Config.Access.{auth_of}
use nsqlite.Config.Sample.{default_config}
use nsqlite.Db.Sample.{World, engine, uuid_nonempty, idle_db}
use nsqlite.Db.Invariant.{IsBalanced}
use nsqlite.Server.Query.{plain}
use nsqlite.Server.Request.{parsed}
use nsqlite.Server.Status.{vdl_admin, auth_role_to_vdl}
use nsqlite.Server.Rpc.{
  json, typed, handle_typed, procedure, call_procedure, counted, rpc_handler, session_is,
}
use nsqlite.Server.Serve.{
  HttpRequest, Serving, replied, rpc_reply, route, db_route, authorize, serve_route, serve_at,
  serve,
}
use nsqlite.Server.History.{Serves, begins, replies, new_serving, IsUntouched, Ends}
use nsqlite.Server.Serves.{MayTouch, serve_guarded, Serves-Ends}

abbrev crypto : Crypto
crypto = record {
  argon2id_compare = λ password hash. some (text_eq hash (codes "$argon2id$" ++ password));
  bcrypt_compare = λ hash password. text_eq hash (codes "$2a$" ++ password);
  sha256 = λ t. t;
}

-- A request for the role, and one for a table.
abbrev asks_role : HttpRequest
asks_role = record {
  method = codes "POST";
  path = codes "rpc" ∷ codes "System" ∷ codes "session" ∷ [];
  authorization = codes "Bearer s3cret";
  basic = none;
  rpc_body = json (typed []) (typed tt);
  queries = parsed [];
  transaction = false;
}

abbrev asks_rows : HttpRequest
asks_rows = record asks_role {
  path = codes "db" ∷ codes "query" ∷ [];
  basic = some (codes "ann", codes "guess");
  queries = parsed (plain (codes "SELECT 1") ∷ []);
}

abbrev AnyToken : Text → Type 0
AnyToken t = Unit

abbrev fresh : Serving World
fresh = new_serving crypto engine (codes "salt") default_config idle_db.world

abbrev asked : Serving World
asked = record fresh {
  auth = record (auth_of (codes "salt") default_config) {
    auth_token_cache = (codes "salts3cret", admin) ∷ [];
  };
}

role_runs : serve crypto engine asks_role fresh ≡ replied (rpc_reply (session_is vdl_admin)) asked
unfolding serve serve_at serve_route route authorize authorize_rpc_request authenticate_request
    auth_is_disabled check_auth_with_cache check_tokens cache_load cache_store scan new_auth_tokens
    tokens_of check_auth_token get_hash_algo text_eq has_prefix hex trim_prefix rpc_handler counted
    procedure call_procedure auth_tokens read_write_auth_tokens read_only_auth_tokens
    split_auth_tokens fields_from auth_role_to_vdl handle_typed
role_runs = refl

no_collision : NoCollision crypto AnyToken (auth_of (codes "salt") default_config)
no_collision x y p q h = cc

after_role : Serves crypto engine AnyToken fresh 0 0 asked
unfolding route text_eq
after_role = replies asks_role _ begins tt role_runs

serve_guarded_example :
    IsUntouched asked.db (serve crypto engine asks_rows asked)
    ⊎ MayTouch crypto
        (auth_of (codes "salt") default_config)
        (route (codes "POST") (codes "db" ∷ codes "query" ∷ []))
        asks_rows
unfolding route db_route text_eq auth_is_disabled new_auth_tokens tokens_of auth_tokens
    split_auth_tokens fields_from
serve_guarded_example =
    serve_guarded crypto engine uuid_nonempty AnyToken (codes "salt") default_config idle_db.world
      after_role no_collision refl asks_rows tt

Serves-Ends_example :
    IsBalanced engine uuid_nonempty 0 0 asked.db
    × Ends crypto engine uuid_nonempty AnyToken
        (auth_of (codes "salt") default_config)
        0
        0
        (serve crypto engine asks_rows asked)
unfolding route db_route text_eq
Serves-Ends_example =
    Serves-Ends crypto engine uuid_nonempty AnyToken (codes "salt") default_config idle_db.world
      after_role asks_rows tt
