-- ===== src/Lib.antt =====
-- A model of dicode-relay: a relay server that forwards HTTP requests to daemons over WebSockets with
-- mutual TLS, the OAuth broker that hands tokens to those daemons, the daemon's client, and the
-- configuration that the server starts from.
--
-- The parts and the code they model:
--   Common     shared definitions and lemmas: Boolean tests, lists, options, `Map` objects as
--              association lists, signed integers.
--   Shared     src/shared/: Platform (what the code calls of Node and protobuf), Certs
--              (extractP256PointFromCert, uuidFromP256Point), Preimage (lengthPrefixed,
--              buildSignedPayload, buildDeliverySignaturePayload, verifyECDSA), Ecies (eciesEncrypt,
--              eciesDecrypt and its WebCrypto twin), SigningKey and its Keys
--              (loadBrokerSigningKey), Delivery (the delivered payload, verifyDeliverySignature).
--              Samples has concrete values.
--   Relay      src/relay/server.ts, the class RelayServer: State (the maps `clients`, `pending` and
--              `pendingByClient`, sockets, timers, and the effects in `log`), Pending (forward,
--              addPending, removePending, close), Connection (handleConnection and its listeners),
--              Events (each listener and timer callback as one event; a history is a list of events).
--   Status     src/status/metrics.ts: Ring (a ring of counters), Metrics (MetricsCollector), Process
--              (processSnapshot), Duration (formatDuration).
--   Client     src/client/: Urls, Aggregate and Supervisor (client.ts), Identity and its Der
--              (identity.ts), Auth (auth.ts), Endpoint and Mailbox (connection.ts: the run loop, with
--              Abort for its signal, Sockets for the dial and the serve loop, Frames for handleFrame;
--              adaptWs), Backoff (backoff.ts), Handshake (handshake.ts), Forwarder (dispatchRequest of
--              forwarder.ts).
--   Broker     src/broker/: Query, Auth, and Callback with its Answer (router.ts), Sessions
--              (sessions.ts), FlowState (flow-state.ts), FlowSession (flow-session.ts), Providers
--              (providers.ts), Grant (grant.ts, the configuration passed to Grant), E2eMock (e2e-mock.ts);
--              Instances has the flow between two brokers with one key.
--   Config     src/config.ts: Interpolation (resolveEnvVars, resolveDeep), Schema (the Zod schemas),
--              Load (loadConfig); Cli is src/index.ts (parseArgs, main, shutdown).
--   Start      src/start.ts: Wiring (the options of the parts), Forwarding (forwardToClient), Routes
--              (paths, headers, GET /providers, the shutdown), Listeners (the subscribers of the
--              relay's events), ControlCert (resolveMtlsCert).
--
-- How they interact: a daemon's connection is entered into the registry of Relay under the hash of its
-- certificate's key, which is the uuid of Client.Identity; Broker.Auth verifies a request that
-- Client.Auth has signed against that registry and seals a flow into a cookie; Broker.Callback opens the
-- flow, encrypts and signs the tokens and calls Relay's `forward`; Client.Auth decrypts what arrives.
-- Client.Handshake and Client.Endpoint are the other end of the same connection. A public HTTP request
-- goes through Start.Routes and Start.Forwarding to Relay's `forward`, and on the daemon's side through
-- Client.Forwarder to a local port. Start.Listeners hears Relay's events and feeds Status.Metrics.
--
-- How code corresponds to definitions: a handler is one function on the state, with the guards of the
-- code in their order. Node's loop delivers one event at a time, so a history is a sequence of steps.
-- A socket, a timer and a promise are named by a number or an id. Numbers are natural numbers; a bucket
-- of a `Uint32Array` wraps at 2^32; an int32 status and a parsed timestamp are signed. A promise that
-- rejects, and a function that throws, return `none` or a constructor of a result type.
--
-- Parameters: Node's cryptography, WebCrypto, base64, JSON, js-yaml's value, the URL parser and the LRU
-- cache are arguments; what is relied on is stated as hypotheses where a property uses it (CodecLaws,
-- LruLaws and the like), and each has an instance in the tests. Loops are structural recursion, but for
-- two: a ring moves min(elapsed, size) rounds as in the code, and `run_until` of Client.Endpoint.Abort
-- has a fuel of rounds, of which the caller gives enough, since each round sleeps at least 800 ms and
-- the signal is set at a finite time. What becomes of an attempt, and each random number, is an argument.
--
-- Not modelled: the generated src/relay/pb/; the HTML of src/status/page.ts and src/status/auth.ts;
-- the Express and `ws` wiring (middleware order, listening, rate limits) of src/start.ts; the generation
-- of certificates and keys; `has`, `size` and `clear` of SeenSet. The jitter of the back-off and the
-- percentage of the CPU are exact fractions where the code rounds doubles.
pub mod Common
pub mod Shared
pub mod Relay
pub mod Status
pub mod Client
pub mod Broker
pub mod Start
pub mod Config
