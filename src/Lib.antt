-- ===== src/Lib.antt =====
-- r-wg, a WireGuard client for the desktop: the decisions of its backend and of its application
-- layer.
--
-- The user interface keeps a library of configurations (src/application/config_library.rs) and
-- decides what the start button does (src/application/tunnel_session.rs). A start sends a request
-- to the engine (src/backend/wg/engine), whose worker parses the configuration, normalizes it
-- (src/core/dns.rs, src/core/route_plan/normalize.rs), plans the routes, the policy rules and the
-- bypass routes (src/core/route_plan/planner.rs), and brings up a kernel interface or a userspace
-- device. The CIDR tools (src/backend/wg/tools/cidr.rs) compute with sets of prefixes.
--
-- Files:
-- - Base: Boolean tests, lists measured by native numbers, the arithmetic of masks, results, and
--   the standard library's `trim`.
-- - Net: `IpAddr` as its big-endian value, and `AllowedIp`.
-- - Cidr, Cidr/Normalize, Cidr/Exclude: the functions of cidr.rs under their names. `u32` and
--   `u128` arithmetic is on natural numbers below 2 ^ 32 and 2 ^ 128, with the wrap written out.
--   Mask to Split, and the children of Normalize and Exclude, are the proofs.
-- - Config: the types of src/core/config/types.rs. Text is a list of character codes.
-- - Parser: parser.rs and the `from_str` of types.rs. Lines, Keys, Fields, Builders and Document are
--   the code, with the loop of `parse_config` a recursion over the lines; the parser of IP addresses
--   and the decoder of base64 are parameters. Post has the rules, Sound what holds between the
--   lines, Headers and Steps what a line keeps; HexText, Accepted, Endpoints and Parsed are about
--   what is accepted.
-- - Dns: `apply_dns_selection` and the presets.
-- - RoutePlan: the types of route_plan/mod.rs; Normalize, Planner and Util are the files of these
--   names. The parser of IP addresses is a parameter of the bypass routes. Collect, Rules and
--   Bypass are the proofs.
-- - Engine: the state of the worker and the actions that its pipelines are written in. Stop is
--   stop_pipeline.rs, Start and Kernel are start_pipeline.rs with backend_strategy.rs, Runner is
--   runner.rs with snapshot.rs. Post has the rules and Standings the predicates of what holds
--   after an action; KernelSettles, SlotSettles, Settles, Stops and Runs are the proofs.
-- - Report: apply_report.rs, and Report/Ids the item ids of ids.rs. Report/Kinds is a proof.
-- - Linux: src/platform/linux/network. Rules and Match are the messages and the tests of policy.rs
--   and recovery/netlink_match.rs; Snapshots is recovery/snapshot.rs, Plan apply_plan.rs, Stages the
--   folder stages with the writers of recovery/journal.rs and last_apply_report.rs, Apply
--   apply_pipeline.rs, Undo the deletions of netlink.rs, policy.rs and recovery/cleanup.rs, Cleanup
--   cleanup_pipeline.rs, and Recovery recovery/startup.rs. Machine has the state and the actions;
--   Keeps, Ends and Works are the rules of the proofs, which are in the other files.
-- - Firewall: the kill switch, src/platform/linux/network/killswitch.rs. Commands has its
--   functions; Ends has the rules, Families, Sweeps, Installs, Tables, Guarded and Removed are the
--   proofs.
-- - Library and Session: config_library.rs and the decisions of tunnel_session.rs.
-- - Tests: the theorems at concrete inputs.
--
-- The engine runs on a state and a world. A call out of the engine (the platform's network
-- configuration, the kernel interface, the userspace device, the traffic guard, the negotiation of
-- an ephemeral peer) takes its outcome from an oracle, which is asked with the number of calls
-- before it, so that every theorem holds for each sequence of outcomes; it changes the world only
-- when it succeeds, except that what a refused removal did not take down is marked as left. A panic
-- is a command that leaves an arbitrary state and the world as it was before the command. A start
-- request stands as what the pipeline reads of it: whether the text parses, whether the endpoints
-- resolve, whether there is a peer. The build is the Linux one.
--
-- The Linux network configuration runs on a machine: the addresses and the routes of the tunnel's
-- interface, the policy rules, the kill switch, the resolver, and the two files. Every request of
-- netlink, command and file operation is a call, which an oracle answers with done, refused or a
-- crash of the process, after which nothing runs. The kernel is taken to hold one route of a prefix
-- and a table, and to delete what a request names. `apply_kill_switch` and `apply_dns` are one call
-- each. In Firewall a state is the list of the requests to nft, iptables and ip6tables with their
-- answers, which an oracle gives by the requests before; what the programs do is not described.
--
-- Bounds and fuel: the merge loop of the prefixes runs on fuel, the number of prefixes, and each
-- round that changes something removes one; the splitting of a prefix runs on the number of bits
-- that are left; a decimal number is printed in as many rounds as the number and one; the search
-- for a name and the deletion of the jumps have the source's bounds. Every other loop is over a
-- list.
--
-- Not modelled: the user interface, logging, storage, the services and pipes between processes, the
-- calls of netlink and of the Windows API, the text of error and status messages, statistics and
-- the relay inventory. The guard of the negotiation in killswitch.rs, the commands of the
-- resolver, and the Windows network configuration are not modelled either.
pub mod Base
pub mod Cidr
pub mod Config
pub mod Dns
pub mod Engine
pub mod Firewall
pub mod Library
pub mod Linux
pub mod Net
pub mod Parser
pub mod Report
pub mod RoutePlan
pub mod Session
pub mod Tests
