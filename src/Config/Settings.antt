-- ===== src/Config/Settings.antt =====
-- internal/config/config.go: the settings, their arguments and their tokens. An int and a duration
-- are 64-bit patterns.
use nsqlite.Prelude.{
  ℕ, Bool, true, false, not, List, [], ◌∷◌, ◌++◌, Text, codes, is_empty, is_space, ◌==◌,
  if◌then◌else◌,
}
use nsqlite.Config.Durations.{int_text, duration_text}

pub record Config : Type 0 where
  pub auth_token : Text
  pub auth_token_rw : Text
  pub auth_token_ro : Text
  pub data_dir : Text
  pub listen_host : Text
  pub listen_port : Text
  pub tx_idle_timeout : ℕ
  pub max_read_conns : ℕ
  pub cache_size_kb : ℕ
  pub busy_timeout : ℕ
  pub max_request_size_mb : ℕ

-- `if cond { args = append(args, flag, value) }`
abbrev pub arg : Bool → Text → Text → List Text
arg true flag value = flag ∷ value ∷ []
arg false flag value = []

-- `ToArgs`
unfoldable pub to_args : Config → List Text
unfolding int_text duration_text
to_args c =
    arg (not (is_empty c.auth_token)) (codes "--auth-token") c.auth_token
    ++ (arg (not (is_empty c.auth_token_rw)) (codes "--auth-token-rw") c.auth_token_rw
        ++ (arg (not (is_empty c.auth_token_ro)) (codes "--auth-token-ro") c.auth_token_ro
            ++ (arg (not (is_empty c.data_dir)) (codes "--data-dir") c.data_dir
                ++ (arg (not (is_empty c.listen_host)) (codes "--listen-host") c.listen_host
                    ++ (arg (not (is_empty c.listen_port)) (codes "--listen-port") c.listen_port
                        ++ (arg (not (c.tx_idle_timeout == 0)) (codes "--tx-idle-timeout")
                              (duration_text c.tx_idle_timeout)
                            ++ (arg (not (c.max_read_conns == 0)) (codes "--max-read-conns")
                                  (int_text c.max_read_conns)
                                ++ (arg (not (c.cache_size_kb == 0)) (codes "--cache-size-kb")
                                      (int_text c.cache_size_kb)
                                    ++ (arg (not (c.busy_timeout == 0)) (codes "--busy-timeout")
                                          (duration_text c.busy_timeout)
                                        ++ (arg (not (c.max_request_size_mb == 0))
                                              (codes "--max-request-size-mb")
                                              (int_text c.max_request_size_mb)
                                            ++ []))))))))))

-- A space ends the word read so far.
abbrev pub at_space : Bool → Text → List Text → List Text → List Text
at_space true [] next longer = next
at_space true (c ∷ word) next longer = (c ∷ word) ∷ next
at_space false word next longer = longer

-- `strings.Fields`, with the word read so far.
unfoldable pub fields_from : Text → Text → List Text
fields_from word [] = if is_empty word then [] else word ∷ []
fields_from word (c ∷ s) =
    at_space (is_space c) word (fields_from [] s) (fields_from (word ++ c ∷ []) s)

unfoldable pub split_auth_tokens : Text → List Text
unfolding fields_from
split_auth_tokens [] = []
split_auth_tokens (c ∷ s) = fields_from [] (c ∷ s)

unfoldable pub auth_tokens : Config → List Text
unfolding split_auth_tokens
auth_tokens c = split_auth_tokens c.auth_token

unfoldable pub read_write_auth_tokens : Config → List Text
unfolding split_auth_tokens
read_write_auth_tokens c = split_auth_tokens c.auth_token_rw

unfoldable pub read_only_auth_tokens : Config → List Text
unfolding split_auth_tokens
read_only_auth_tokens c = split_auth_tokens c.auth_token_ro
