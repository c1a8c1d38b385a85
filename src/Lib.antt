-- ===== src/Lib.antt =====
-- Berth agent: what the agent on a docker host accepts, what it sends, and what it runs.
--
-- The agent serves berth over HTTP. A request passes the signature check of internal/agentsign and the
-- token check of internal/auth before a handler sees it; the handler's answer is signed, and a large
-- one is framed, by the response writer of internal/agentsign. A handler of operations validates the
-- request (internal/operations/validation.go, with the archive options of
-- internal/archive/validation.go), runs it, and logs its output in a broadcaster that subscribers read
-- while it grows (internal/operations/broadcaster.go). The sidecar (internal/sidecar) replaces the agent
-- itself.
--
-- Which file models what:
--   * Encoding: encoding/binary, encoding/hex and strconv, as far as the code calls them: big-endian
--     numbers (BigEndian), decimal int64 (Decimal), lower-case hexadecimal (Hex).
--   * AgentSign/Canonical: Canonical, RequestBase and ResponseBase of internal/agentsign/agentsign.go.
--   * AgentSign/Nonces: nonceCache, an association list in place of the map; admit is admit.
--   * AgentSign/Crypto: the calls of crypto/* and encoding/base64, as a record that is a parameter.
--   * AgentSign/Verifier: Verifier, NewVerifier, VerifyRequest (authenticate up to the nonce cache,
--     then settle) and VerifyBody. A result is the verifier after the call with ok or err.
--   * AgentSign/Body: limitedReader of internal/agentsign/body.go and ReadBody; a body is the pieces
--     that its reads deliver, and whether it breaks off.
--   * AgentSign/Middleware: Middleware and SessionFor of internal/agentsign/middleware.go.
--   * AgentSign/Frames, AgentSign/BodyFrames: FrameWriter, FrameReader, BodyWriter and their methods,
--     of internal/agentsign/stream.go. BodyFrames/Reading holds a reader of framed bodies that the
--     other end needs; the repository has none.
--   * AgentSign/Responder: signingWriter of internal/agentsign/responder.go; the writer below it is
--     the list of heads and the bytes of the body. Hijack ends with the call of the same method below,
--     and what it signs for an upgrade is kept in a list of its own.
--   * Operations/Options, Operations/Request: internal/operations/validation.go. The regular
--     expressions are functions on bytes, the maps of options are lists.
--   * Operations/Command: the arguments in buildCommand of internal/operations/service.go.
--   * Operations/Broadcaster: internal/operations/broadcaster.go; a call is one step, since each holds
--     the lock. A subscriber is the cursor of StreamTo and what it wrote.
--   * Operations/Tracking: the maps of the service of internal/operations/service.go and the functions
--     that change them under its mutex. Running has runOperation as the list of its steps, for any
--     answers of docker, the archives and the backups; a removed operation's log is out of sight.
--   * Paths: Clean, Join, Abs and Rel of path/filepath; Joined and Normal hold what its clients need of
--     them.
--   * StackNames: ValidateStackName and SanitizeStackPath of internal/validation/validator.go.
--   * WebSocketHub: Hub.Run and the channels of internal/websocket/hub.go; a client is a number, and a
--     request to the hub is a step.
--   * Archive/Service: the checks of internal/archive/service.go and security.go in front of a handler,
--     and ValidateExtractPath, which a handler calls for each member of an archive;
--     Operations/Archives: the options that internal/operations/service.go reads for them.
--   * Archive/Options, Auth, Sidecar: internal/archive/validation.go, internal/auth/middleware.go and
--     internal/sidecar/supported.go.
--   * ComposeEditor: applyChangesToYaml of internal/composeeditor/service.go and all that it calls.
--     Nodes has the trees of gopkg.in/yaml.v3 and the helpers of yaml_helpers.go, Config the structs of
--     types/compose.go, Builders the node builders of node_builders.go (Sections those of
--     section_handlers.go and service_lifecycle.go), Sections the four section handlers, Services the
--     changes of services, Lifecycle service_lifecycle.go, Document applyChangesToYaml, Layout
--     addBlankLinesBetweenSections. A node that is changed through a pointer is changed at its place in
--     the tree, a map of changes is the list of its pairs in the order of the loop, and an index out of
--     bounds is the error panicked.
-- A Tests module beside them holds runs at concrete inputs.
--
-- Numbers: text is a list of bytes as natural numbers, times are nanoseconds since 1970 as natural
-- numbers, an int64 is an integer with the bounds of IsInt64 written where they matter, the sequence
-- number of a frame wraps at 2^64 and a length prefix at 2^32.
--
-- Fuel: the loop of BodyWriter.Write runs on the length of the payload, which write-Sent shows to be
-- enough; ReadBody runs on the number of pieces and bytes of the body, and its theorem shows that this is
-- enough; a reader of a framed body runs on a number of frames, and the theorem about it gives that
-- number. Everything else is recursion on its input.
--
-- Not modelled: docker, restic, processes, the file system, HTTP routing and logging; the parts of the
-- agent that are mostly calls of those (stacks, files, backups, images, maintenance, statistics, logs,
-- terminals, scans). The primitives of cryptography are parameters.
mod Prelude
pub mod Encoding
pub mod Paths
pub mod AgentSign
pub mod Archive
pub mod Auth
pub mod Sidecar
pub mod StackNames
pub mod Operations
pub mod WebSocketHub
pub mod ComposeEditor
