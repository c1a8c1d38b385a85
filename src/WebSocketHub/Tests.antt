-- ===== src/WebSocketHub/Tests.antt =====
-- internal/websocket: runs at concrete inputs.
use berth_agent.Prelude.{List, [], ◌∷◌, codes}
use berth_agent.WebSocketHub.{new_hub}
use berth_agent.WebSocketHub.Channels.{
  Request, connecting, leaving, sending, receiving, serve_all, IsSound, serve_all-IsSound,
}

abbrev sample_requests : List Request
sample_requests =
    connecting
    ∷ connecting
    ∷ sending (codes "up") (1 ∷ 0 ∷ [])
    ∷ leaving 0
    ∷ leaving 0
    ∷ receiving 1
    ∷ []

serve_all-IsSound_example : IsSound (serve_all new_hub sample_requests)
serve_all-IsSound_example = serve_all-IsSound sample_requests
