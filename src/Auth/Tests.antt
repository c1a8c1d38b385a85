-- ===== src/Auth/Tests.antt =====
-- internal/auth: runs at concrete inputs.
use berth_agent.Prelude.{◌≡◌, ◌≢◌, ◌↔◌, none, some, [], ◌++◌, Text, codes}
use berth_agent.Auth.{token_middleware, empty_context, next_called, refused}
use berth_agent.Auth.Laws.{token_middleware_iff, token_middleware-status}

abbrev plain_hash : Text → Text
plain_hash s = s

token_middleware_iff_example :
    ((token_middleware plain_hash (codes "s3cret") empty_context (codes "Bearer s3cret")).1
      ≡ next_called)
    ↔ ((codes "s3cret" ≢ []) × (codes "Bearer s3cret" ≡ codes "Bearer " ++ codes "s3cret"))
token_middleware_iff_example =
    token_middleware_iff plain_hash (codes "s3cret") empty_context (codes "Bearer s3cret")

token_middleware-status_example :
    let answer =
      token_middleware plain_hash (codes "s3cret") empty_context (codes "Bearer s3cret") in
    (answer.0.status ≡ (elim answer.1 [
      | refused _ _ ↦ some (codes "failed")
      | next_called ↦ some (codes "success")
    ]))
    × (answer.0.error ≡ (elim answer.1 [ refused _ reason ↦ some reason | next_called ↦ none ]))
token_middleware-status_example =
    token_middleware-status plain_hash (codes "s3cret") empty_context (codes "Bearer s3cret")
