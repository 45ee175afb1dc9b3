-- ===== src/Lib.antt =====
-- revese-server: a hub and a client that carry TCP connections through a firewall.
--
-- The client (client.go) connects to the hub (hub.go). Over this one connection runs a stream
-- multiplexer (lib/smux), perhaps over an encrypted connection (lib/streamcoder/streamcoder.go), whose
-- keys both ends derive from a shared secret and two nonces. The hub opens a stream for each of its own
-- clients, and the client joins the stream to its target. lib/streamcoder/flowobf.go is another wrapper
-- of a connection, which pads frames with noise.
--
-- Which file models what:
--   Base             native lists, words of 16 and 32 bits, signed numbers, association lists,
--                    io.ReadFull (Base/Io) and the lemmas on them
--   Smux/Frame       lib/smux/frame.go, the encoding in sendLoop and readFrame of lib/smux/session.go
--   Smux/Config      Config, DefaultConfig and VerifyConfig of lib/smux/mux.go
--   Smux/Mux         Server and Client of lib/smux/mux.go
--   Smux/Stream      Stream, newStream, split and the flags of lib/smux/stream.go
--   Smux/Session     Session, newSession, Close, writeFrame, streamClosed, returnTokens of session.go
--     Flow           pushBytes, returnTokens, sendPause, sendResume of stream.go
--     Open           OpenStream and AcceptStream;  Open/Fresh, Open/Refused: their ids
--     Recv           recvLoop and keepalive;  Recv/Cases: every command
--     Conn           Read, Write and Close of a stream;  Conn/Cases: the branches of Write
--     Machine        all operations as steps between states, and histories
--     Kept           what no step changes;  Keepalive: the timeout tick
--     Tokens         the count of the tokens;  Tokens/Bound: what a session can buffer
--     Delivery       the bytes from OpenStream and Write to a Read, and how a stream ends;
--                    Delivery/Pausing: a Read between pushBytes and its sendPause;
--                    Delivery/Dropping: frames between the two looks of a Read
--     Delivery/Demux frames of many streams, in any order, in one receive loop
--     Sends          the shape of the frames that a session sends
--     Conn/Writer    the writing goroutine of sendLoop;  Conn/Contract: what Write counts
--     Spec           the map of byte queues that a session stands for
--     Refine         what each operation is on that map;  Refine/Run: histories
--   Smux/Sender      the queues of sendLoop in session.go and the goroutine that collects from them
--     Order, Steps   what a step does to the frames of a stream;  Fifo: the order over whole runs
--     Drain          how a queue is emptied;  Total, Ids, Collector: how the collector ends
--     Wake           writeNotify and the waking of the collector;  Whole: a loop at rest
--     Kinds          predicates on frames, through the send loop
--     Loops          the goroutines in small steps;  Loops/Order: the order over their runs;  Overtaking: what
--                    happens where a request finds its queue full
--     AnyOrder       the order in which Go goes through the map of queues;  Stall: frames behind a FIN
--     TestMode       the loop with the field test of the configuration
--   Streamcoder/Coder    lib/streamcoder/streamcoder.go;  Coder/Transfer: its two ends;
--                    Coder/Layer: the Coder as a connection over another
--   Streamcoder/Conn     the connection below a wrapper, an interface
--   Streamcoder/FlowObf  lib/streamcoder/flowobf.go;  FlowObf/Layer: over a connection
--   Streamcoder/FlowStat lib/streamcoder/flowstat.go;  Closing: its Close
--   Streamcoder/FlowDump lib/streamcoder/flowdump.go
--   Programs         hub.go and client.go: Settings, Hub, Client, Handshake;  Copy: handleClient and cp;
--                    Copy/Crossing: what cp has carried
--     Tunnel         the way of a client's bytes from the hub's Write to the client's stream buffer;
--                    Tunnel/Streams: that of all streams of a session at once
--   Tests            runs of the model on small inputs
--
-- How state is modelled. A session is a record that holds its streams as objects in a store, since a
-- stream stays in use by its readers after it left the session's map: a pointer is the number of an
-- object, and `streams` maps ids to pointers. A lock, and a Read with the tokens that it returns, is one
-- step, and a Write is one step or one for each frame: Smux/Session/Machine lists the steps, and theorems
-- over histories hold for any order of them. In Smux/Sender and its Wake a request, and a turn of the
-- collecting goroutine for one id, is one step; Smux/Sender/Loops has both goroutines in smaller steps: each
-- send, receive and atomic operation is one. A channel of capacity one without data, and an atomic flag,
-- is a Bool. Where a select can go several ways the way is an argument. The environment of a step (Env)
-- holds the time, whether a write to the connection succeeds, whether an acceptor is there, and the
-- float32 arithmetic of pushBytes.
--
-- Numbers. An int32 is its bit pattern, with add32, sub32 and lt32; uint16 and uint32 sums wrap; the int
-- and time.Duration fields of configurations are signed numbers. `none`, or a constructor named panic, is
-- a panic of the source.
--
-- Bounds and fuel. The loop of split and the chunks of flowobf.go recurse on fuel, the length of the
-- slice, which is enough since each round takes at least one byte off. The loop of recvLoop is counted:
-- the theorems say how many rounds they need. The collector recurses on fuel: one more than reqCount is
-- enough. All else is structural.
--
-- Not modelled: lib/chacha20, a copy of another project's library (what is relied on of it is the record
-- Cipher), the hash functions of the standard library (arguments), calcSpd of flowstat.go, which is never
-- started, logging, reading the configuration file, and socket options.
pub mod Base
pub mod Programs
pub mod Smux
pub mod Streamcoder
pub mod Tests
