-- ===== src/Lib.antt =====
-- A model of the core of KIRA, the routing daemon for control planes: its sans-I/O routing protocol
-- R2/KAD (kira-r2kad), in the order in which its parts build on one another.
--
-- Prelude holds shared names, lists over native numbers and what a call does: `Outcome` is a value
-- or a panic (a failed assertion, expect, unwrap or checked operation), `Result` an error.
-- HashMap is the standard library's map: an association list with unique keys, whose order stands
-- for the iteration order that the standard library leaves open.
--
-- Parts, files and sources (paths from the repository's root):
--   StateSeqNr      kira-r2kad/src/domain/state_seq_nr.rs
--   Backoff         kira-r2kad/src/utils/exponential_backoff.rs
--   BackoffMap      kira-r2kad/src/utils/backoff_map.rs
--   InflightReqMap  kira-r2kad/src/utils/inflight_req_map.rs
--   Link            kira-r2kad/src/domain/mod.rs
--   Path            kira-r2kad/src/domain/path/mod.rs (NodePath; Vec: the standard vector)
--   CycleRemover    kira-r2kad/src/domain/path/cycle_remover.rs, in_order_cycle_remover.rs
--   PathCollection  kira-r2kad/src/domain/path/pathcollection.rs
--   SourceRoute     kira-r2kad/src/domain/source_route.rs
--   NotVia          kira-r2kad/src/domain/mod.rs, kira-r2kad/src/use_cases/failure_handling.rs
--   Contact         kira-r2kad/src/domain/contact.rs
--   Bucket          kira-r2kad/src/domain/bucket.rs
--   HashTable       kira-r2kad/src/domain/dht/hash_table.rs (LocalHashTable, the interface of both
--                   tables, which Client uses), hash_table/single_value_hash_table.rs (SingleValue),
--                   hash_table/complex_hash_table.rs (Complex)
--   UlnTable        kira-r2kad/src/domain/underlay.rs, underlay_neighbor_table/mod.rs (UlnTable, the
--                   interface), in_memory_underlay_neighbor_table.rs (InMemory),
--                   observable_underlay_neighbor_table.rs (Observable, over any UlnTable)
--   Wire            kira-r2kad/src/domain/protocol_message/wire/protocol_message_kind.rs (Kind),
--                   protocol_object.rs (Object), common_header.rs (Header)
--   NodeId          kira-r2kad/src/domain/node_id.rs
--   RoutingTable    kira-r2kad/src/domain/routing_table.rs (the interface, NextHop),
--                   routing_table/flat_routing_table.rs (Flat),
--                   routing_table/unlimited_uln_routing_table.rs (UnlimitedUln, over Flat)
--   Forwarding      kira-r2kad/src/domain/protocol_event/forwarding.rs, kira-forwarding/src/tables/mod.rs,
--                   in_memory_tables.rs (InMemory)
--   PathSimplifier  kira-r2kad/src/domain/path/shortest_first_path_simplifier.rs
--   InsertionStrategy
--                   kira-r2kad/src/domain/insertion_strategy.rs (UNSStrategy, over the interfaces
--                   RoutingTable and UlnTable, with CycleRemover and PathSimplifier)
--   PathProbing     kira-r2kad/src/use_cases/path_probing.rs (over the interface RoutingTable)
--
-- A function of the source has a definition of its name in the module of its part; a method that
-- changes its object takes the old state and returns the new one beside its result. Node
-- identifiers, timers, nonces and times are native numbers; where their width matters, the bound is
-- a hypothesis or written out.
--
-- Bounds and fuel: the loops are recursions on lists or on a count; a model that takes fuel says
-- beside its definition why the fuel is enough.
--
-- Interfaces: LocalHashTable and UlnTable are the traits of the source as records of operations and
-- laws; Client and Observable take any of them, and the tables in memory fill them.
-- RoutingTable and AsyncForwardingTables are traits of operations, which the flat table and the tables
-- in memory implement; InsertionStrategy, PathSimplifier and PathProbing take any RoutingTable. Contacts
-- hold paths and the links of NotVia, buckets hold contacts, and the route of a message is made from
-- the active path of a contact.
--
-- Not modelled: input and output, the runtime and the tasks (kira-lib, kirad), the kernel interface
-- of the forwarding (kira-forwarding), logging, display and serialisation derives, closest of
-- the routing table, the vicinity graph, and the use cases of the protocol
-- (kira-r2kad/src/use_cases) but the probing of paths and the state of a rediscovery. Hashes of
-- paths, the clock and the random generators are arguments.
pub mod Backoff
pub mod BackoffMap
pub mod Bucket
pub mod Contact
pub mod CycleRemover
pub mod Forwarding
pub mod HashMap
pub mod HashTable
pub mod InflightReqMap
pub mod InsertionStrategy
pub mod Link
pub mod NodeId
pub mod NotVia
pub mod Path
pub mod PathCollection
pub mod PathProbing
pub mod PathSimplifier
pub mod Prelude
pub mod RoutingTable
pub mod SourceRoute
pub mod StateSeqNr
pub mod UlnTable
pub mod Vec
pub mod Wire
