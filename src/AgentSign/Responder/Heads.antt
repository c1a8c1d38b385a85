-- ===== src/AgentSign/Responder/Heads.antt =====
-- internal/agentsign/responder.go: how many heads are sent.
use berth_agent.AgentSign.Responder.{hijack}
use berth_agent.AgentSign.Responder.{hijack}
