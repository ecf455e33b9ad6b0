-- ===== src/Lib.antt =====
-- XDrop: a packet filter made of an XDP program, an agent on each node that writes its BPF maps, and
-- a controller that sends rules to the agents. This development models the agent in node/agent and
-- the rule service of the controller in controller/internal: how a rule is checked and stored, how it
-- becomes a key, a value and a combo number, how CIDR prefixes get their numbers, how a
-- request changes the rule stores, the whitelist and the BPF maps, how a new configuration is
-- published, and how a full synchronisation replaces all rules by one switch.
--
-- The parts and how they interact:
--   * Prelude: Booleans, maps, signed integers, bytes and text that the other modules share. A Go map
--     is an association list, a Go string a list of code points where its characters matter.
--   * Net: ParseIP, ParseCIDR, To4, Contains and the printing of Go's package net, as documented,
--     over which the code is written.
--   * Ebpf: the interface to the BPF maps, a record of operations with the laws that callers rely
--     on; any call may fail. Ebpf/Lists is an instance, for the examples.
--   * Cidr/Manager (node/agent/cidr/manager.go): the numbers of CIDRs and their trie entries. The
--     bodies of the two directions are the same code on other maps: `alloc` and `release` model
--     them once, `alloc_src_id` and its kin choose the maps. Trace runs sequences of calls.
--   * Agent/Types (node/agent/api/bpf_types.go, types.go), Agent/Combo (combo.go), Agent/Wire
--     (serialize.go), Agent/Validate (validate.go), Agent/Convert and Agent/Listing
--     (convert.go; Listing has its functions from the stored rules to those of the API).
--   * Agent/State: the Handlers record. Agent/Config (config.go): publishConfigUpdate, with one
--     function for the writes to the shadow map and one for the selector, and the choice of the
--     active and the shadow maps. Agent/Clear: clearMap.
--   * Agent/Store and Agent/Rules (rules_mutation.go): AddRule is `route_rule`, the checks before
--     the locks, and `store_rule`, the part under them; DeleteRule is `delete_rule`. Rules/Batch:
--     DeleteRulesBatch. Rules/AddBatch: AddRulesBatch.
--   * Agent/Cidrs and Agent/CidrRules (cidr_rules.go): addCIDRRule is `check_cidr_rule`, then
--     `reserve_cidr`, which takes the numbers from the manager, then `store_cidr_rule` under the
--     locks. Agent/Handle joins the parts to the whole of AddRule, and has the steps of the agent,
--     from its start on.
--   * Agent/Whitelist (whitelist.go): AddWhitelist is `route_whitelist` and `store_whitelist`, which
--     AddWhitelistFromSync has too; DeleteWhitelist is `delete_whitelist`. Whitelist/Batch:
--     DeleteWhitelistBatch. Whitelist/AddBatch: AddWhitelistBatch, phase by phase. Whitelist/Clear:
--     ClearAllWhitelistFromSync (sync.go).
--   * Agent/Sync (sync.go): Route has the checks of DoAtomicSync, Rules its loop and its switch;
--     Whitelist is DoWhitelistAtomicSync with publishConfigUpdateForWLSync (config.go); AddRule is
--     AddRuleFromSync and addCIDRRuleFromSync (cidr_rules.go). A UUID that a rule without an id gets
--     is an argument.
--   * Agent/Startup (node/agent/sync/controller_sync.go): SyncOnStartup, over DoWhitelistAtomicSync and
--     DoAtomicSync. Startup/Frame: what each of the two leaves of the other's state.
--   * Controller/Types (controller/internal/model/rule.go), Controller/Decoder (service/decoder.go),
--     Controller/Validate, Controller/Overlap and Controller/Create (service/rule_service.go): Create is
--     `create_rule`, its checks `check_create`; the repository is a record of operations. A rule that
--     the controller accepts meets the agents' checks in Decoder/Accepted and Create/Stored.
--     Controller/Update: Update (`update_rule`). Controller/Delete: Delete, BatchDelete and
--     DeleteExpired (`delete_stored`, `batch_delete`, `delete_expired`). Controller/Batch: BatchCreate
--     (`batch_create`), with the keys that it compares. Controller/Steps: sequences of these six calls
--     on one repository; Steps/Memory is an instance, for the examples. Controller/Node: ToNodeRule of
--     model/rule.go, with what an agent reads of it.
--
-- A handler is one function from state to state and answer: in the model no other handler runs in its
-- midst. The code holds its locks from the first read of the state to the last write, except that
-- addCIDRRule takes its numbers from the CIDR manager before them, AddRulesBatch adds its CIDR rules
-- one by one, each under the locks, before it takes them for the exact rules, and SyncOnStartup calls
-- its two synchronisations one after the other. An error is `none`, a false flag or a constructor.
-- The loops are structural: the bitmap over its 64 bits, the copy over the 12 config entries, the
-- rest over lists; fuel is used in the parser of IPv6 addresses, which counts the eight groups that an
-- address has room for, and in the printing of a number n, which has n + 1 steps for its digits.
-- Values keep the ranges of their Go types: `next_id` wraps at 2 ^ 32. What an agent reads of a JSON
-- map in Controller/Node/Received is what encoding/json documents.
--
-- Not modelled: the paging of the listing, the statistics and the logging, which change no state of
-- the rules; HTTP; the controller's storage, which is SQL, and its calls of the nodes, which are HTTP
-- calls side by side; the start of the programs, netlink and the loader, which are calls of the
-- kernel; the web interface and the XDP programs, which are in other languages.
pub mod Prelude
pub mod Net
pub mod Ebpf
pub mod Cidr
pub mod Controller
pub mod Agent
