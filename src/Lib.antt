-- ===== src/Lib.antt =====
-- veilgate is a reverse proxy that scores each request and lets it through, challenges it or
-- sends it to a tarpit. A request first passes the listener's framing guard, then the proxy's
-- handler, which tests its framing, serves preflights and the program's own endpoints, enforces
-- upload policies, asks the detector for a score, decides, asks the authenticator chain, and
-- hands the request to the upstream or to another handler.
--
--   Proxy, in internal/proxy: Framing is `badHTTPRequestFraming` and Guard the connection
--     `framingGuardConn` of framing_guard.go. ClientIp is `resolveClientIP`, Decision is
--     `decide` and the credential check after it, Protocols the tests for WebSocket and gRPC,
--     and Serve is `serve` of proxy.go. Upload is upload.go: choice and enforcement of a
--     policy, and in Upload/Limit the counting reader of the body.
--   Verifier, in internal/verifier: the chain of verifier.go, with Hmac for hmac.go, Tokens for
--     the token directory that bearer.go and validator.go share, Bearer for bearer.go, and
--     Validators for validator.go, header.go and cookie.go. Jwt is jwt.go and Callout is
--     callout.go, two validators that ask the network.
--   Blueprint, internal/blueprint/matcher.go: the compiled routes and their cache; Slots cuts a
--     lookup at its atomic operations, so that a schedule can interleave calls.
--   Detector, in internal/detector: Tracker is tracker.go, the state of each client, and Fleet
--     is fleet.go, the addresses that share a fingerprint. Scorer holds the signals, one module
--     for a file: Headers, Toolchain, Session, Behaviour, Network and Custom are
--     scorer_headers.go and so on, and Scorer/Total is `Score` of scorer.go, which puts them
--     together. Reputation is internal/rules/ip_reputation.go.
--   Challenge, internal/challenge/challenge.go: Proof is `verifyPOW`, Tokens are `validToken`
--     and `Passed`, Pages the handlers that pose a challenge, and Handling `verify` and
--     `ServeHTTP`.
--   Tarpit, in internal/tarpit: response_cache.go stands in Tarpit itself, Profiles is
--     profile.go, and Routes and Handling are handler.go, whose renderer and injector are
--     parameters.
--   Admin, in internal/admin: auth.go, with `handleLogin` and `handleLogout` of handlers.go,
--     `protect` of admin.go, and `apiAuth`, `apiLogin` and `apiLogout` of api.go; Admin/Calls
--     is about one call, Admin/Sessions about a sequence of calls.
--   System: the proxy's server with the scorer and the challenge handler in the places of its
--     parameters.
--   Tlsfp, in internal/tlsfp: Parser is parser.go and Store the store of listener.go;
--     Parser/Fuel is about the fuel of the parser's two loops.
--   H2fp, internal/h2fp/h2fp.go: the fingerprints of HTTP/2 settings, their database and store;
--     H2fp/Classifying is about where a classification comes from.
--   Http: what the program reads of a net/http request, and the replies it writes.
--   Prelude: lists, texts as bytes, maps and numbers.
--
-- A handler that changes state takes the state and the request and returns them; `Verifier.Step`
-- is what a verifier returns, since it may read the body and fill a cache. Numbers are natural;
-- where Go's are signed and negative ones mean "none", the field is an Option or 0 with a
-- comment. Errors are values: Option, a reply, or `Built` for constructors.
--
-- The two loops over a ClientHello's extensions take the number of bytes as fuel; any more gives
-- the same, by `Tlsfp.Parser.Fuel`. The digits of a number n take n + 1. The guard's loop takes
-- fuel too: one more than `Guard.size` of what the connection will deliver, which
-- `Guard.Stream.gather_total` shows to be enough. Other loops are structural.
--
-- Not in the repository, and so parameters: the parser of addresses and networks,
-- `mime.ParseMediaType`, the hash functions, and the file system, which `Disk` gives as it is
-- during one call. The token library, the clock's layouts, JSON, regular expressions and
-- templates are parameters too, and so are the timing heuristic and the learner, which work on
-- floating-point numbers. The detector's score and the handlers' responses are parameters of
-- `Server`; System fills the score and the challenge in. Left out: metrics, logs, traces,
-- deadlines, the event store, the transports to the upstream, the WebSocket tunnel, the tarpit's
-- renderer, machine learning and the other pages of the admin console.
pub mod Prelude
pub mod Http
pub mod Blueprint
pub mod Verifier
pub mod Proxy
pub mod Detector
pub mod Tlsfp
pub mod H2fp
pub mod Challenge
pub mod Tarpit
pub mod Admin
pub mod System
