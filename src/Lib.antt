-- ===== src/Lib.antt =====
-- CloudBridge: remote access to devices behind NAT. A signal server introduces apps to agents, a STUN
-- server tells a peer its public address, and a relay forwards bytes between two peers that cannot
-- reach each other directly. This library models the Go code of these parts and proves what makes
-- each of them correct. It follows the source function by function.
--
-- The parts, and the files that model them:
--
--   Protocol/Frame    internal/protocol/frame.go: `Frame` with MarshalBinary, UnmarshalBinary, WriteTo
--                     and ReadFrom. A byte is a number below 256; `IsFrame` says that the fields of a
--                     frame are in range. WriteTo and ReadFrom work on any `Writer` and `Reader`.
--   Protocol/Json,    internal/protocol/messages.go: the payloads of the signal protocol and their
--   Protocol/Messages envelope, as JSON values with fields in the order of Go's struct tags.
--   Relay/Handshake   internal/relay/handshake.go: WriteHandshake, ReadHandshake, WriteHandshakeAck,
--                     ReadHandshakeAck. `handshake_steps` and `ack_steps` are the reads on the buffered
--                     reader; `read_handshake` and `read_handshake_ack` make that reader on the
--                     connection and leave the connection without it.
--   Relay/Session,    internal/relay/session.go and server.go: a session with its peers, the table of
--   Relay/Server      sessions and the handling of a connection, split into the steps between two locks.
--                     Server/Steps is the relation of these steps: a connection's goroutine is in a
--                     `Phase`, and the steps of different connections come in any order. Server/Accept is
--                     the accept loop; Server/Matching has the IDs that connections have sent.
--   Relay/Forward     internal/relay/server.go: relaySession, with the bytes that io.Copy moves between
--                     the peers.
--   Signal/Client     the `Client` struct of internal/signal/hub.go, its channel as a queue of at most
--                     256 messages with a closed flag, in a heap, since clients are shared by pointer.
--   Signal/Hub        internal/signal/hub.go: the registry of clients and devices, each method a step
--                     under the hub's lock. Histories has the steps that internal/signal/server.go
--                     takes on it over time, as a relation; Registry is the abstract map from
--                     a device to its client, with what each step is for it.
--   Signal/Sessions   internal/signal/session.go: the session manager, its sessions in a heap too.
--   Signal/Handler    internal/signal/handler.go: what HandleMessage does on the hub, the session
--                     manager and the channels.
--   Signal/Server     internal/signal/server.go: the connections over time, each in a `Phase`, their
--                     messages and disconnections in any order, over the state of the handler.
--                     Server/Pump is writePump, and Pump/Steps has it among the other goroutines;
--                     Server/Routes is what Start serves over HTTP, with corsMiddleware and the routes
--                     of internal/api/device.go.
--   Stun              internal/stun/server.go: handleMessage and buildBindingResponse, and in
--                     Stun/Serve the loop serve over what the socket gives in each turn.
--   Relay/Client      internal/relay/client.go: ConnectToRelay, on what the dial gives.
--   Tunnel            internal/tunnel/tunnel.go and relay.go: `Tunnel/Interface` has the transport as a
--                     record of operations, which `Tunnel/Relay` fills with the relay transport;
--                     `Tunnel/Stream` has the stream over two channels.
--   Agent/Register    internal/agent/register.go: the agent's connection to the signal server, its
--                     answers, and in Register/Reconnect the loop Run.
--   Agent/Proxy       internal/agent/tunnel.go: the two loops of ProxyDataFrames, over any transport,
--                     and what it and ProxyData return.
--   Agent/Sessions    internal/agent/tunnel.go: the agent's SessionManager, over any transport.
--   Agent/Shell       internal/agent/proxy/shell.go: a shell session, with what it does to the process
--                     and the terminal as a list of effects.
--   Api               internal/api/device.go: the handlers of the REST API, as a status and a JSON value.
--   Http              what the servers use of net/http: handlers, headers, ServeMux and ReverseProxy.
--   Programs          cmd/webproxy/main.go, the gateway, as a handler in front of the signal server;
--                     cmd/server/main.go as steps of main and of the goroutine that waits for a signal;
--                     cmd/agent/main.go to its exit status.
--   Common            lists, maps, big-endian words, readers, writers and results.
--
-- How they interact: the handler is the client of the hub and the session manager, and writes to the
-- channels of the clients; the relay reads a handshake from each connection; agents and apps exchange
-- frames over the connection that is left. The relay client is the other side of the relay's handshake;
-- the agent's tunnel runs over it, and the agent answers what the handler routes to it. In
-- Agent/Proxy/ThroughRelay the frames of one agent go through the relay's handshake and its copying to
-- the other end. The gateway proxies to the signal server's handler, which reads the hub through the API.
--
-- Bounds: `read_full` (Common/Reader), the loop of io.ReadFull, takes as many rounds as bytes are wanted,
-- and that is enough since a read without an error gives a byte at least. `receive_frames` (Agent/Proxy),
-- the loop over a transport's frames, takes one round more than the transport's `size`, and that is
-- enough since every frame that is read makes the size less (`read_less`). `run` takes a list of rounds,
-- what the network does in each; a round begins when the connection before it has ended. The chunks of a
-- shell are a list, behind which its reads fail or block. Every other loop is a recursion over a list. A failed send on a closed
-- channel is the error of a panic. net/http recovers a panic in the goroutine of a connection, and what
-- the goroutine would still have done for its client is skipped: Signal/Server has that as a step. The
-- order of Go's map iteration is not determined; the models list the entries in their own order.
--
-- Third-party and standard-library code is a parameter: io.Reader, io.Writer and bufio as interfaces
-- with their laws (Common/Reader, Common/Writer); a connection in segments and a buffered reader over
-- it are shown to have the laws. encoding/json between values and bytes, sockets, timers, logs
-- and random numbers are not modelled; a time that a method reads is an argument.
--
-- Of net/http, the code that the programs rely on is modelled where it decides what is answered; a path
-- is its segments, without percent-escapes. gorilla/websocket is a parameter. A message is a parsed JSON
-- value.
--
-- Not modelled: the deadlines of connections, the listening of all servers, the pseudo-terminal and the
-- process of the shell, and the parsing of flags, which are I/O; the application (app) is in other
-- languages.
pub mod Agent
pub mod Api
pub mod Common
pub mod Http
pub mod Programs
pub mod Protocol
pub mod Relay
pub mod Signal
pub mod Stun
pub mod Tunnel
