-- ===== src/Auth/Laws.antt =====
-- internal/auth/middleware.go: who gets through.
use berth_agent.Prelude.{
  subst, ◌≡◌, ◌≢◌, ap, ◌∙◌, ◌↔◌, true, false, some, [], ◌++◌, arith, Text, codes, text_eq,
  text_eq_iff,
}
use berth_agent.Prelude.{has_prefix, has_prefix_iff, drop, text_eq_refl}
use berth_agent.Auth.{AuthContext, refused, next_called, token_middleware}

module _ (sha256 : Text → Text) (access_token : Text) (c : AuthContext) where
  passes :
      access_token ≢ []
      → (token_middleware sha256 access_token c (codes "Bearer " ++ access_token)).1 ≡ next_called
  unfolding token_middleware has_prefix text_eq
  passes given = ground (arith, text_eq_iff access_token [], text_eq_refl access_token)

  tests_of_next :
      (auth : Text)
      → (token_middleware sha256 access_token c auth).1 ≡ next_called
      → (text_eq access_token [] ≡ false)
        × (has_prefix auth (codes "Bearer ") ≡ true)
        × (text_eq (drop 7 auth) access_token ≡ true)
  unfolding token_middleware
  tests_of_next auth h = ground arith

module _ (sha256 : Text → Text) (access_token : Text) (c : AuthContext) (auth : Text) where
  -- The next handler is called exactly if an access token is configured and the header is `Bearer `
  -- followed by that token.
  pub token_middleware_iff :
      ((token_middleware sha256 access_token c auth).1 ≡ next_called)
      ↔ ((access_token ≢ []) × (auth ≡ codes "Bearer " ++ access_token))
  token_middleware_iff = (
    (λ h.
        let (given, bearer, same) = tests_of_next sha256 access_token c auth h in
        let (token, e) = (has_prefix_iff auth (codes "Bearer ")).0 bearer in
        let e' : token ≡ access_token =
          (text_eq_iff token access_token).0
            (subst (λ a. text_eq (drop 7 a) access_token ≡ true) e same) in
        (
          (λ nothing. ground (arith, text_eq_iff access_token [])),
          e ∙ ap (λ t. codes "Bearer " ++ t) e',
        )),
    (λ (given, e). rw e (passes sha256 access_token c given)),
  )

  -- A refusal is recorded in the context with its reason, and a request that goes on with success and
  -- no new error.
  pub token_middleware-status :
      ((token_middleware sha256 access_token c auth).0.status
        ≡ (elim (token_middleware sha256 access_token c auth).1 [
          | refused _ _ ↦ some (codes "failed")
          | next_called ↦ some (codes "success")
        ]))
      × ((token_middleware sha256 access_token c auth).0.error
          ≡ (elim (token_middleware sha256 access_token c auth).1 [
            | refused _ reason ↦ some reason
            | next_called ↦ c.error
          ]))
  unfolding token_middleware
  token_middleware-status = ground arith
