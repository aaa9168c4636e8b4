-- ===== src/Lib.antt =====
-- The Secure Connect Connector: what decides which flows are admitted, and where their packets go.
--
-- The Connector sits between nodes, which reach it through WireGuard tunnels, and the internal network
-- of a customer. A node's Gatekeeper asks, over a long poll that the Connector opens, whether a flow may
-- pass; the Connector proves the device's key, checks the policy of the last heartbeat, and records the
-- flow in its table. Every decrypted packet is then forwarded, translated or refused by that table, and
-- every reply is led back to its node.
--
-- Files, with the paths of the repository that they model:
--
-- Dto            src/dto.rs: the heartbeat's bundles, entitlements and port rules.
-- DnsCache       src/dns_cache.rs: the addresses of endpoint hosts (resolve, refresh_with).
-- FlowTable      src/flow_table.rs. Types is the state; Rules the choice of a port rule; Flows admission,
--                release and eviction; RuleChanges a heartbeat's rules (update_rules, is_rule_ended);
--                SourcePorts the allocator; Forward and Reply the two directions of a packet; Pending
--                the packets held for an admission; ControlPorts the control channels. Invariant and
--                Bounds hold what every history of operations keeps.
-- Policy, Access src/policy.rs and src/access.rs: the applied policy and the decision by it.
-- Crypto         src/crypto.rs: verify_base64, over the libraries' decoders and schemes.
-- FlowControl    src/flow_control.rs: authenticate_and_decide and the handlers.
-- AdmissionPoller src/admission_poller.rs: the handlers of a poll's messages, and the pollers. Origins
--                and Admitted say where the flows in the table come from, Releases what a release holds off.
-- Tunnel         src/tunnel.rs: the ports, addresses and checksums of a packet.
-- TunnelManager  src/tunnel.rs: the WireGuard tunnels, one to a node (sync_nodes, drive_all_timers).
-- Preparation    src/main.rs: prepare_decrypted_packet_for_forwarding and
--                prepare_reply_packet_for_forwarding, which put the table and the packet together.
--                Written says what a packet reads as once it is rewritten.
-- Revocation     src/main.rs: reconcile_dropped_entitlements, which tears down the flows of revoked devices.
-- GatewayEnd     src/gateway_end.rs: the queue of gateway-end reports and its file (load, pending,
--                enqueue, acknowledge, persist). Delivery and Waiting say what an acknowledgement
--                leaves of it, Durability follows it over restarts.
-- Heartbeat      src/heartbeat.rs and src/registry_client.rs: what an answer of Agent has to be to be
--                trusted (fetch_and_verify, deregister_and_verify, get_agent_permitted_key).
-- AgentDirectory src/agent_directory.rs: which agents are tried, in which order (candidates, heartbeat,
--                deregister).
-- Endpoints      src/main.rs: the hosts and rules of a package (unresolved_hosts_in, bundle_audit_events,
--                reconcile_endpoint_changes).
-- Dialling       src/main.rs: dial_new_nodes.
-- Package        src/main.rs: what run_heartbeat does with a package that is in force.
-- Cycle          src/main.rs: run_heartbeat, which puts all of these together. Invariant, Trust, Revoked and
--                Reports say what a heartbeat keeps, on which answer it acts, what a revocation
--                ends, and what becomes of the reports in the queue, by Answers.
-- Config         src/config.rs: the configuration, from the environment (from_env).
-- Commands       src/main.rs: the command line, and `--deregister` with its exit codes.
-- Audit          src/audit.rs: the entries of the log.
-- Net, Text, Sorting, HashMap and Base are what the source uses of its standard library, and shared
-- notation.
-- Tests          the theorems at concrete inputs.
--
-- Conventions. A `&mut self` method is a function from the state to the state and its result. A map is
-- an association list whose latest binding stands first; nothing rests on its order but where the
-- source's own choice among equals is free. Ports and counters are natural numbers; where the source
-- casts to `u16` the cast is written out. `Instant::now()` and `Utc::now()` are arguments, in nanoseconds,
-- and `duration_since` is zero where the order is reversed, as in Rust. An early return or a missing
-- result is an `Option`; where the source would panic there is no result.
--
-- Interleaving. Every handler takes the table's lock for each of its steps, so what several pollers do
-- is a list of messages in the order in which they are handled; `Call` lists the table's own operations
-- and a history is any list of them.
--
-- Bounds and fuel. The search for a source port is recursion on the number of offsets that are left,
-- the size of the range. The loop of `checksum_adjust` has two carries as its fuel, which are enough for
-- any three 16-bit words. No other loop needs fuel.
--
-- Parameters. The reading of RFC 3339 times, hex and base64 decoding, the two signature schemes, serde's
-- parsers, SHA-256 and the WireGuard library are arguments (the records Library, Parsers, Serde and
-- WireGuard, together Libraries), as is the test of a packet for the Connector's own address. What the
-- surroundings do is an argument too: the network's answers (Network), the resolver's, the clocks, the
-- random report ids, the environment's variables, the identity's file, and how far the file system
-- gets in each save (Saving), a crash included.
--
-- Not modelled: sockets, HTTP, TLS, the TUN device, the audit log's file, the making of identities, the
-- logging, and the loops of src/main.rs that wait for a packet or a timer.
pub mod Base
pub mod HashMap
pub mod Net
pub mod Dto
pub mod Text
pub mod Sorting
pub mod DnsCache
pub mod FlowTable
pub mod Policy
pub mod Audit
pub mod Access
pub mod Crypto
pub mod FlowControl
pub mod AdmissionPoller
pub mod Tunnel
pub mod Preparation
pub mod GatewayEnd
pub mod Revocation
pub mod Heartbeat
pub mod AgentDirectory
pub mod TunnelManager
pub mod Endpoints
pub mod Dialling
pub mod Package
pub mod Cycle
pub mod Config
pub mod Commands
pub mod Tests
