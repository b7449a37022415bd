-- ===== src/Lib.antt =====
-- smolkafka, a replicated commit log: records are appended to a log of segments on disk, Raft
-- keeps the logs of several servers the same, Serf says which servers there are, and clients are
-- served by gRPC, their calls spread over the servers.
--
-- internal/log/store.go is Store (with Bytes for encoding/binary): a file behind a `bufio.Writer`
-- whose buffer of 4096 bytes, and whose error that stays, are in the state. internal/log/index.go
-- is Index: entries of 12 bytes in a memory map. internal/log/segment.go is Segment: a store and
-- an index in the directory of Disk, under the names of Names. internal/log/log.go is Log: a list
-- of segments, and the pointer `activeSegment`, which may be left at a segment that `Truncate`
-- removed. Each operation has the name of its Go method in snake case (`Log.append` is
-- `Log.Append`, `Segment.new_segment` is `newSegment`) and is a function from the state to a
-- result and the new state, by the monad of Exec; what changed before an error stays changed. A
-- method that panics returns the error `panic`.
--
-- internal/log/distributed.go is Raft (the state machine, its snapshots, and the log that Raft
-- keeps its own entries in), Cluster (the calls that go through Raft), Startup
-- (`NewDistributedLog` and `WaitForLeader`) and Stream (`StreamLayer`, with the matcher of the
-- agent's multiplexer). internal/loadbalance/picker.go is Picker, with Text for Go's strings;
-- internal/discovery/membership.go is Membership; internal/server/server.go with
-- internal/auth/authorizer.go, and internal/server/http.go with internal/server/log.go, are
-- Server, of which Server.Calls has the interceptors and Server.Routes the routes,
-- cmd/server/main.go and api/v1/errors.go; internal/loadbalance/resolver.go is Resolver, which
-- brings the configuration of Cluster to Picker. internal/agent/agent.go is Agent (the order of
-- the start and the shutdown) and Wiring (what each part is set up with), and Service the
-- distributed log as what gRPC serves; internal/config is Config, with the names of the files in
-- Config.Files; cmd/smolkafka/main.go is Command, whose settings become the agent's
-- configuration; and examples/main.go is Example, a server and its client over a log of their
-- own. Cluster.Replicas puts several servers together: a step relation on their logs, with the
-- commands that Raft has committed. Tests holds concrete inputs.
--
-- What stands above a list of payloads is the predicate `Holds`: Segment.Holds says that a
-- segment's store has the frames of the payloads and its index an entry for each, and Log.Holds
-- that the segments follow one another without a gap, the last one is active and below both
-- limits, and the directory has their files and no other. Log.Contract says what a log promises
-- to its owner in any run of calls, in terms of one sequence of payloads and the offset of its
-- first. Log.Suits says under which limits a segment is maxed before it lacks the room for an
-- entry. `Returns` (Exec.Returns) says that a method returns, and what then holds.
--
-- Not under the repository, and so parameters: memory maps and protocol buffers (Platform, with
-- the laws used: a map has the file's bytes, a sync writes them back, what was marshalled is
-- unmarshalled to the same), Raft (Cluster.Raft, Startup.Library, and the steps of
-- Cluster.Replicas, in which it gives a server that starts the committed commands from the first
-- on), Serf (Membership.Serf), connections and TLS (Stream.Net, Config.Crypto), the multiplexer
-- and gRPC (Wiring.Packages, Server.Calls.Grpc, Resolver.Grpc), the command line and its settings
-- (Command.Viper, Command.Cobra), what the example calls (Example.Packages), casbin's decision,
-- and the JSON encoder. Files are lists of bytes, a byte is a number, and numbers are natural
-- numbers with the wrap-around of their width written out. A method that holds a lock is one
-- step. Writes that fail for want of space or by a fault of the hardware are not modelled, nor is
-- a file opened twice. A file has the position of its descriptor, from which `Persist` copies it.
--
-- Fuel: `Restore` takes eight bytes in each round but the last, so the stream's length and one are
-- rounds enough; a number has no more decimal digits than its size and one.
--
-- `WaitForLeader` takes the order in which its `select` wakes, the ticks and the end of the time.
--
-- Not modelled: the options of logging and tracing, the registration of the resolver and the
-- picker with gRPC, the text of the errors, and the generated code in api/v1.
pub mod Prelude
pub mod Exec
pub mod Bytes
pub mod Store
pub mod Platform
pub mod Index
pub mod Disk
pub mod Names
pub mod Segment
pub mod Log
pub mod Raft
pub mod Text
pub mod Picker
pub mod Membership
pub mod Server
pub mod Cluster
pub mod Agent
pub mod Config
pub mod Example
pub mod Startup
pub mod Wiring
pub mod Service
pub mod Command
pub mod Stream
pub mod Resolver
pub mod Tests
