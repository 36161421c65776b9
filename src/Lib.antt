-- ===== src/Lib.antt =====
-- A verification library for the reverse tunnel of MarketMesh, a program of several services behind
-- two gateways. gateway-in stands in the DMZ and terminates client calls; gateway-out stands inside
-- and dials gateway-in. Each dialled connection is a tunnel: a stream of frames in both directions,
-- over which gateway-in sends logical requests and gateway-out answers them.
--
-- The parts of the program, and the files that model them:
--
-- * The protocol, backend/api/tunnel/v1. Protocol/Enums and Protocol/Messages are the messages of
--   api/proto/tunnel/v1/tunnel.proto: a nil message is `none`, an unset oneof is `none`, an open
--   enum has a case `unrecognized`. Protocol/Headers, Hello, Metadata, Trace, Payloads, Members and
--   Routes are the functions of validate.go under their names in snake_case, and Protocol/Validate
--   the switches of ValidateGatewayOutFrame and ValidateGatewayInFrame. A function that returns an
--   error returns an `Option Error`, and a chain of early returns is a do block. Protocol/Reflect
--   and Protocol/Decode are decode.go. The Spec modules and Trace/Parent, Trace/State,
--   Metadata/Tracestate and Validate/Safety have the theorems.
-- * The scheduler of a session, backend/services/gateway-in/internal/tunnel/scheduler.go, is
--   GatewayIn/Scheduler: four bounded lanes, a token that wakes the consumer, and the lane to look
--   at next. Scheduler/Wake runs producers and the consumer against each other, one channel
--   operation at a time.
-- * A logical request, request.go beside it, is GatewayIn/Request: the state, with Sending for what
--   goes out and Inbound for what comes in. `enqueueFrame` of the session is a parameter. Each
--   method takes the request's lock once and is a function on the state; `handleInbound` grants
--   credit after it has dropped the lock, so its grant is a step of its own in Request/Runs, where
--   the caller, the session's reader, the end of the session and the compaction of a request whose
--   call is over interleave;
--   Request/Credit looks at data that honours its credit, and Request/Sequence at the numbers of
--   the frames and at the outcome.
-- * GatewayIn/Routes has the tables of config.go, and GatewayIn/Errors the errors.
-- * GatewayIn/Config is the rest of config.go: `newSettings` and its checks, and Config/Accepted what
--   the settings that it returns satisfy. GatewayIn/Handshake is server.go: the negotiation of a
--   tunnel from the settings and the Hello of the peer, Handshake/Classes the classes of the routes
--   that are shared, and Handshake/Negotiated the Hello that answers it. GatewayIn/Peer is
--   peer.go, the allowlist of peers and the check of a certificate, and Peer/Allowed shows whom they
--   let in.
-- * GatewayIn/Session is session.go, the tunnel itself: Session/Requests has the start and the end of
--   requests and the ring of tombstones, Session/Traffic what may be queued, Session/Reading the
--   reader, the writer, the pings and both drains. A request object is an entry with its identity,
--   and the two maps are a list with one entry per id and a function. Session/Runs lets the callers,
--   the reader, the writer and the timers take steps in any order. Where `fail`, `removeRequest`,
--   `initiateDrain`, `markDraining` and `finishLocalDrainAfterSend` drop the lock, what follows is
--   recorded in the state and is a step of its own. Session/Ring and Memory compare
--   the ring with a queue that forgets its oldest element; Kept, Quiet, Steady and Reader show which
--   operations leave the maps; Counts, Within and Bounded follow the bounds, and Over, Ended,
--   Failing and Outcome the end of a tunnel.
-- * GatewayIn/Registry is registry.go: admission of handshakes and tunnels and reservations of
--   instances, each method a function on the registry's state, and the weight that a data center has
--   while traffic returns to it. Registry/Admission has the steps, Registry/Runs what holds in every
--   run. Registry/Selection is `selectAndOpenRequest`, which tries one tunnel after another, and
--   Registry/Order the order of the tunnels from that of the data centers.
-- * Prelude has the helpers, and Tests runs the definitions and applies the theorems at samples.
--
-- Parameters. `ProtoRuntime` is what validation asks of the protobuf runtime, and `Wire` what
-- decoding asks of protowire and of the unmarshaller; the one fact that is assumed of them, that a
-- tag that is read takes a byte, is a hypothesis of the theorem that needs it.
--
-- Bounds and fuel. Bytes are numbers below 256. Go's int, which holds sizes and credits, is
-- unbounded here: the code keeps them within limits of at most 2^23, so none wraps. Sequence
-- numbers are uint64 and wrap, and the product in `failbackWeight` is an int64 and wraps. The loop
-- of `validateEncodedFrame` runs on fuel, the length of the data, which is enough since each field
-- takes a byte at least. `startRequest` has four rounds, as in the code. The other loops are
-- structural. Times of the session are nanoseconds, and the sizes of frames, `proto.Size`, and the
-- time until a deadline are parameters of its functions. `url.Parse` and the TLS state of a
-- connection are parameters of the peer policy.
--
-- Not modelled: the order in which the registry tries data centers, gateway-out, the other services,
-- and the adapters to databases, HTTP, gRPC and telemetry.
pub mod GatewayIn
pub mod Prelude
pub mod Protocol
pub mod Tests
