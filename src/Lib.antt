-- ===== src/Lib.antt =====
-- A model of LinkRaft: its replicated key-value store (internal/raft and internal/kvs), the client of
-- that store, and the web API on top (internal/api, internal/model); and the theorems that its parts
-- rest on.
--
-- The program is a cluster of nodes. Each node runs a Raft node, which elects a leader and replicates
-- a log, and a key-value store, which applies the committed entries in their order. A client's write
-- is a command that the leader appends to its log (Server.propose, Node.Propose); once a majority
-- holds it, every node's apply loop hands it to the store (Store.Apply). A read first confirms the
-- leader (Node.ReadIndex) and then reads the leader's store. The API server reaches the cluster
-- through kvs.Client, which follows the leader; its handlers keep users, links, votes and comments as
-- JSON under keys of the store, behind the interface KV.
--
-- Which file models which part:
--   Journal         the files of JSON lines that both logs are written to: the text of a record, line
--                   ends, and the fragment that a write cut short leaves. `scan` is the loop over
--                   bufio.Scanner in OpenLog and ReplayWAL.
--   Raft/Log        internal/raft/log.go: OpenLog, Append, TruncateFrom, CompactTo, At, TermAt, From
--                   and LatestConfig are open_log, append, truncate_from, compact_to, entry_at,
--                   term_at, entries_from and latest_config.
--   Raft/Node       the struct Node of internal/raft/raft.go with raft-meta.json, the messages of
--                   proto/raft.proto, becomeFollowerLocked, saveMeta, broadcastAppendLocked.
--   Raft/Election   tick, startPreVoteLocked, startElectionLocked, handleRequestVote and what is done
--                   with each answer to a vote request.
--   Raft/Commit     becomeLeaderLocked and advanceCommitLocked.
--   Raft/Replication Propose, sendAppend and handleAppendEntries.
--   Raft/Membership internal/raft/membership.go.
--   Raft/Reads      internal/raft/readindex.go and the apply loop.
--   Raft/Compaction internal/raft/snapshot.go, maybeSnapshot, sendSnapshot, handleInstallSnapshot.
--   Raft/Status     GetStatus.
--   Raft/Start      NewNode: the state that a node is started with from its files.
--   Raft/Run        the steps of one node in any order, with crashes and starts, as a relation. Its
--                   children go over the steps once for each invariant: the vote (Votes, Ballots), the
--                   log in memory (WellFormed), a leader's log (Leader), waiting readers (Readers).
--                   Elections puts the nodes of a cluster beside each other, each with its history.
--   Kvs/Number      strconv.FormatInt and strconv.ParseInt, as the counters use them.
--   Kvs/Store       internal/kvs/store.go and internal/kvs/wal.go.
--   Kvs/Server      internal/kvs/server.go: what each RPC answers.
--   Kvs/Client      internal/kvs/client.go. `call` is Client.call, cut into the loop over the attempts
--                   (attempts), over the candidates (try_candidates) and the cases after a request;
--                   Discovery is ClusterStatus. Rounds and Attempts have a rule for each loop.
--   Api/Act         a handler: a function from a state to a state and a value or an error.
--   Api/Kv          the interface KV as a record of operations, and `plain`, which does them to the
--                   content of the store and never fails. Simulation says when a store does what
--                   `plain` does, and that handlers then do so too (Api/Simulated).
--   Api/Keys, Api/Repo  internal/api/handler/repo.go.
--   Api/Yields      rules for what a handler over `plain` has done, a statement at a time.
--   Api/Auth        internal/api/middleware/auth.go.
--   Api/Links, Api/Votes, Api/Comments, Api/Accounts, Api/Cluster
--                   the handlers: link.go; vote.go; comment.go; auth.go and user.go; cluster.go and
--                   health.go.
--   Api/Remote      kvs.Client as the KV of the handlers.
--   Api/Models      internal/model.
--   Examples        the theorems at concrete inputs.
--
-- How state corresponds: a method that changes *Node under its lock is a function from the node to the
-- node and its result. A method that releases the lock to wait for a call or a channel is cut there:
-- send_append_begin and send_append_end are the two locked parts of sendAppend, and the relation Step
-- lets any other step come between. A goroutine that a step starts is a Task in the node's list. The
-- outcome of each file operation, the random draws and the clock are data of the node, so every
-- theorem holds for all of them. A map is an association list; where the source ranges over a map the
-- model takes the order of the list.
--
-- A handler of the API runs under Repo's lock and is one function; what a call to KV returns is the
-- result of a function on the state behind it, which may fail at any call, with whatever it has done
-- by then. A request comes as what Echo's binders have read of it: `none` is a failed binding.
--
-- Numbers: uint64 fields are natural numbers, and the increments of terms and indexes wrap at 2^64.
-- int64 counters wrap as Go's do. The client makes ten attempts, as the source does. Two definitions have a bound on their rounds: advance_from, which goes once over each
-- index from the commit index to the last, as the loop does, and the digits of Kvs/Number, where the
-- number itself bounds the recursion.
--
-- Parameters: the JSON form of a configuration (MembersCodec) and the state machine behind a Raft node
-- (Snapshotter) are records of functions without laws. So are, for the API, the JSON form of each
-- stored type (Json), the network and the nodes that the client talks to (Network, Rpc), the JWT library
-- (Jwt), bcrypt (Bcrypt), and the functions on texts and URLs (Texts). What a theorem needs of one is a
-- hypothesis with a name: IsReadBack and IsSound (a record is read back as it was written, a password
-- matches its hash), IsJwt (a signed token is valid until it expires), IsRoundTrip (a list of ids is
-- read back as it was written), IsFaithful (a request does only what it says to the content, but may do it
-- even if it fails or is redirected, also later on), IsLed (one node leads), Counts. Examples has an
-- instance of each.
--
-- A handler is stated for any KV that does what `plain` does or reports that it is unavailable (Simulates).
-- The client of a cluster is such a KV for Get, Set, Delete and Keys; an Incr that it retries may be done
-- more than once, so for the numbers of a sequence Simulates asks more than the client gives.
--
-- Files: a write that fails has stopped after some whole records, within the text of the next one, or just
-- before its line end; or all of it is there. A crash is one of the process: what a finished system call has
-- written is still there, as the file of the term and the vote is not synced (state.go). The longest line
-- that a Scanner reads, 16 MiB, is left out.
--
-- The second locked part of maybeSnapshot is a step by itself, at a point that an earlier state has given, so
-- an InstallSnapshot may come between the two. The indexes of advance_from do not reach 2^64.
--
-- Not modelled: the gRPC transport and the generated protobuf code (calls of libraries), the routes and
-- the process wiring under cmd, messages in flight between the nodes of a cluster (a node's step takes
-- any message), the fetch of a link's preview (internal/api/handler/ogp.go, which is
-- net/http and an HTML parser), the web frontend.
pub mod Prelude
pub mod Journal
pub mod Raft
pub mod Kvs
pub mod Api
pub mod Examples
