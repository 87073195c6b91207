-- ===== src/Lib.antt =====
-- Smart DNS proxy: the core of the panel, of the agent, of the DNS server, of the SNI proxy
-- and of the relay.
--
-- The panel builds versions of its rule sets from their sources (panel/internal/rules), behind the
-- accounts of its users (panel/internal/api/session.go). It compiles the desired state to one
-- config for each node (panel/internal/compiler), which the node's agent checks and makes the
-- active one (agent/internal/agentcore). An ingress node answers DNS for the names of its services
-- (node/dnsfe) and carries their TLS connections, by the name in the ClientHello (shared/sniff),
-- through a tunnel (shared/tunnel) to an egress node that it selects (node/proxy). The relay there
-- (node/relay) admits a destination by the rules of its own config (shared/domainset) and by the
-- addresses it resolves to (shared/netguard).
--
-- Files and code:
--   Prelude, Prelude/*      lists, texts, results, integers and sorting that the parts share
--   Platform                what is called and not held by the repository: Unicode tables, IDNA, RE2
--   Strings                 the functions of Go's `strings` that the code uses
--   Domainset, Domainset/*  shared/domainset/domainset.go (Host: NormalizeHost, validateHost; Parse:
--                           ParseLines, parseOne; Rules: Merge, Diff, Counts) and matcher.go (Matcher)
--   Sniff                   shared/sniff/clienthello.go: PeekSNI, parseClientHello
--   Tunnel                  shared/tunnel/tunnel.go: WriteConnect, ReadConnect, StatusText, Splice
--   Netip, Netguard         net/netip as far as it is used, and shared/netguard/netguard.go
--   Model                   shared/model/artifact.go: the records that the panel hands to the nodes
--   Limiter                 node/dnsfe/limiter.go: configure, key, allow, gc
--   Router                  node/dnsfe/router.go: Apply, Lookup, AllowClient
--   Selector                node/proxy/selector.go: observe, newPool, order, byLatency, dial
--   Compiler, Compiler/*    panel/internal/compiler/compile.go (Types: the records and the small
--                           helpers; Conflicts: detectConflicts; Services: the loop over the services;
--                           Nodes: the loop over the nodes and the manifest; Compiler: Compile)
--   Relay                   node/relay/relay.go: Apply, Allowed, handle
--   Dns, Dns/*              node/dnsfe/server.go: New, Reload, Handle, synthesize, forward, ServeDNS
--   Proxy, Proxy/*          node/proxy/proxy.go: Apply, lookup, handle, dohForward; and dial of
--                           selector.go. Path follows a session from the compiler to the relay
--   Agent, Agent/*          agent/internal/agentcore/agent.go: validate, handleConfig, pruneRevisions
--   Pipeline, Pipeline/*    panel/internal/rules/pipeline.go: Build, load, Approve; and approveRuleSet of
--                           panel/internal/api/rulesets.go
--   Auth, Auth/*            panel/internal/api/session.go: authenticate, requireAuth, handleLogin and
--                           the handlers of passwords, sessions and second factors
--   Tests/*                 the theorems at concrete inputs
--
-- State is passed on explicitly, a record for each struct. A text is the list of its bytes. A map is a
-- list of pairs or a function, a set of names a list that is asked for membership. A call that returns
-- an error gives a `Result`; the errors keep what their texts are made of. `sort.Slice` is a stable
-- insertion sort. Counts, sizes, ports, TTLs, schema versions and durations are natural numbers, and a
-- negative one is outside the model; the thresholds, the probe interval and the hysteresis of an egress
-- policy, and priorities, are integers.
--
-- The walks over the labels of a name and over the fields of a ClientHello run on fuel, which starts
-- as the length of what they walk over, and each round shortens it. A loop over a ClientHello that
-- runs out of it gives an error of its own, `out_of_fuel`, which the code does not have.
--
-- The rate limiter counts tokens in units of 10^-9, so that a nanosecond gains a whole number; the
-- rounding of float64 is not modelled. The latencies of the selector are of any type with the
-- operations of a float64. Random numbers, clock readings, dials and what a peer sends are arguments.
-- So is which calls of the system or of the database fail: where the code drops the error of an
-- update, the update may be lost and the code goes on. Reads of an account and its sessions succeed.
--
-- Not modelled: metrics, logs, deadlines and locks (each operation runs as one step), closing of
-- connections, the accept loops, the background probe of the selector, the DNS wire format and
-- DoH, the agent's bundle, the panel's other handlers, jobs and pusher, and the web interface. The
-- database is the rows that a handler reads and writes; a transaction commits whole or not at all.
-- The agent's disk holds directories for revision IDs that are file names; the code joins the ID into
-- a path without a check, and where an ID with a slash or `..` leads is not modelled.
pub mod Prelude
pub mod Platform
pub mod Strings
pub mod Domainset
pub mod Sniff
pub mod Tunnel
pub mod Model
pub mod Netip
pub mod Netguard
pub mod Limiter
pub mod Router
pub mod Selector
pub mod Compiler
pub mod Relay
pub mod Dns
pub mod Auth
pub mod Pipeline
pub mod Proxy
pub mod Agent
pub mod Tests
