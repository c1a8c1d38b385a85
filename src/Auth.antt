-- ===== src/Auth.antt =====
-- internal/auth/middleware.go: the bearer token of a request.
pub mod Laws
mod Tests
use berth_agent.Prelude.{
  ℕ, not, Option, none, some, [], Text, codes, text_eq, if◌then◌else◌, length,
}
use berth_agent.Prelude.{has_prefix, take, drop}
use berth_agent.Encoding.Hex.{hex}

-- What the middleware leaves in the echo.Context.
pub record AuthContext : Type 0 where
  pub status : Option Text
  pub error : Option Text
  pub token_hash : Option Text

abbrev pub empty_context : AuthContext
empty_context = record { status = none; error = none; token_hash = none }

-- c.JSON with a status and an error, or the call of `next`
pub data Answer : Type 0 where
  refused : ℕ → Text → Answer
  next_called : Answer

module _ (sha256 : Text → Text) where
  -- HashToken
  pub hash_token : Text → Text
  hash_token token = if text_eq token [] then [] else take 16 (hex (sha256 token))

  -- SetAuthSuccess
  pub set_auth_success : AuthContext → Text → AuthContext
  set_auth_success c token =
      let c' = record c { status = some (codes "success") } in
      if not (text_eq token []) then record c' { token_hash = some (hash_token token) } else c'

  -- SetAuthFailure
  pub set_auth_failure : AuthContext → Text → AuthContext
  set_auth_failure c reason = record c { status = some (codes "failed"); error = some reason }

  refuse : AuthContext → ℕ → Text → AuthContext × Answer
  unfolding set_auth_failure
  refuse c status reason = (set_auth_failure c reason, refused status reason)

  -- TokenMiddleware, on the value of the Authorization header, which is empty if there is none
  pub token_middleware : Text → AuthContext → Text → AuthContext × Answer
  unfolding refuse set_auth_success
  token_middleware access_token c auth =
      if text_eq access_token []
      then refuse c 500 (codes "Access token not configured")
      else if text_eq auth []
      then refuse c 401 (codes "Authorization header required")
      else if not (has_prefix auth (codes "Bearer "))
      then refuse c 401 (codes "Bearer token required")
      else let token = drop (length (codes "Bearer ")) auth in
        if not (text_eq token access_token)
        then refuse c 401 (codes "Invalid token")
        else (set_auth_success c token, next_called)
