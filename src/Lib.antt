-- ===== src/Lib.antt =====
-- A verification library for V2Root-Core, an Xray core with a C interface. It models the mKCP
-- transport, transport/internet/kcp: a reliable stream over UDP with its own segments, windows,
-- acknowledgements, retransmission, congestion control and connection states; and the parser of share
-- links, v2root/parser.go, which turns links into configurations and back.
--
-- The parts, from the bottom up:
--   Base               Boolean tests, lists and slices on native numbers, Go's machine words, and
--                      Outcome: what a Go function over slices does (a value, a failure, a panic).
--   Kcp.Segment        segment.go: the segments (record per struct), Serialize, parse, ReadSegment.
--   Kcp.Rtt            connection.go, RoundTripInfo.
--   Kcp.Window         sending.go, SendingWindow: a list of the segments that wait.
--   Kcp.Sending        sending.go, SendingWorker: a record of its fields, one function per method.
--   Kcp.AckList        receiving.go, AckList: three parallel slices.
--   Kcp.Receiving      receiving.go, ReceivingWindow and ReceivingWorker, and what they use of
--                      common/buf/multi_buffer.go.
--   Kcp.Connection     connection.go, Connection: the state machine, Input, flush, Close. What a call
--                      does outside (segments sent, notifiers, timers) is a list of effects.
--   Kcp.Config         config.go, and KCPConfig.Build of infra/conf/transport_internet.go.
--   Kcp.Packet         io.go and output.go: the datagrams, with header and cipher as parameters.
--   Kcp.Authenticator  crypt.go and xor.go, the legacy cipher, with its hash as a parameter.
--   Buf.Buffer         common/buf/buffer.go, Buffer: its content and its room.
--   Buf.MultiBuffer    the pure operations of common/buf/multi_buffer.go.
--   Parser             v2root/parser.go, share links. Parser.Types has its structs, Parser.Links the
--                      parser of each kind of link, Parser.Stream their stream settings,
--                      Parser.Routing, Parser.Dns and Parser.Validate what they use, Parser.Entry
--                      the exported Parse functions, Parser.Export the way back, with the queries of
--                      Parser.Query, and Parser.Reparse both ways composed.
--   Parser.Text        the functions of strings, strconv and fmt that the parser calls; Parser.Values
--                      is url.Values with one value under a key.
--   Kcp.Link           a sender and a receiver over a network, as a step relation.
--
-- A method that mutates its receiver returns it. A mutex is left out: a call is atomic. Every
-- operation on uint32 wraps (Base.Words). A payload is the list of its bytes; memory management
-- (Release of buffers) is left out. The clock is an argument, and stands still within one call.
--
-- Texts are native strings. net/url, encoding/base64, encoding/json and os.Stat are parameters of the
-- parser, the functions of the record Net; what a theorem needs of them is among its hypotheses, for
-- the link that it is about (Parser.Reparse.Reads: a link that was written is read as its parts).
-- Go's errors are not told apart: a parser gives a value, an error or a panic.
--
-- Four loops run on fuel. Printing a number takes a digit off it in each round, and has as many rounds
-- as the number and one more. That of ReadMultiBuffer takes an entry out of the window in each
-- round, so as many rounds as there are entries are enough; those of the packet reader and of MergeBytes take
-- bytes in each round, and have as many rounds as there are bytes. All other loops are structural.
--
-- Not modelled: of the share link parser the JSON texts, the renaming of dnsConfig in
-- JSONToConfigString, which works on any JSON, and addGeositeRuleIfExists, which nothing calls; the
-- environment variable that Parse sets is Parser.Entry.asset_location. Of mKCP, the blocking Read and
-- Write of a connection, the updaters' goroutines, sockets, the listener and the dialer, and AES-GCM.
-- The rest of the repository.
pub mod Base
pub mod Kcp
pub mod Buf
pub mod Parser
