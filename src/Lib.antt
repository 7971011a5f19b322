-- ===== src/Lib.antt =====
-- FluxWAN: the egress router for several uplinks. The control plane (src/*.c) measures the uplinks,
-- gives them weights and builds Maglev rings; the XDP program (bpf/xdp_router.bpf.c) reads the rings
-- and sends each flow to an uplink. Paths are those of the repository.
--
-- The parts and their files:
-- - Base: lists, tests, machine words. Config: the structs of include/fluxwan.h.
-- - Checksum (bpf/xdp_router.bpf.c, src/prober.c, bpf/xdp_nat46.bpf.c): the Internet checksums.
-- - Sticky (src/sticky.c): the session table; `lookup`, `insert` and `cleanup_expired` are
--   `sticky_lookup`, `sticky_insert` and `sticky_cleanup_expired`.
-- - Maglev and WanManager (src/wan_manager.c): `build_single_maglev_ring`, `wan_manager_rebalance`
--   as `rebalance`, `wan_manager_on_health_update` as `on_health_update` and the dead-gateway
--   watchdog of `wan_manager_periodic_tick`. Links has its PPPoE callbacks, which `pppoe_manager_tick`
--   calls, Lease the DHCP client part of the tick (`dhcp_engine` for one WAN, `dhcp_from` the loop).
--   Calls that leave the process are recorded as effects.
-- - Prober (src/prober.c): `prober_send_probes` as `send_probes`, with the probes that it sends as
--   effects, and `prober_handle_packet` as `handle_packet`. It writes the
--   configuration that WanManager reads, and calls `on_health_update`.
-- - Dhcp (src/dhcp_server.c): the options, the lease table and `dhcp_server_process` as `process`.
-- - License (src/license_manager.c) and Base64 (src/crypto_ed25519.c): `rebalance` asks
--   `is_authorized` of License before it gives any weight.
-- - Router (bpf/xdp_router.bpf.c): Parse, Dispatch, Rewrite and Packet follow the steps of
--   `xdp_router_func`. Its WAN table and rings are what `rebalance` sends as effects.
-- - Nat46 (bpf/xdp_nat46.bpf.c): `xdp_nat46_handler`, with `egress` and `ingress` for its two paths.
-- - Dns64 (src/dns64_daemon.c): `round` is a round of `dns64_worker`, `on_query` and `on_response` are
--   its two halves. It fills the maps that Nat46 reads: `on_query` and `egress` are composed in Pool.
-- - Pppoe (src/pppoe_manager.c): `session_start`, `session_stop` and, in Tick, `pppoe_manager_tick` as
--   `tick` with one `tick_session` for each uplink. Mac has the virtual address.
-- - Broadband (src/pppoe_server.c): the accounts of the PPPoE server. Accounts and Import have one
--   function for each `pppoe_server_…` operation; `write_pppoe_secrets` is `write_secrets`.
-- - Dispatcher (bpf/xdp_dispatcher.bpf.c): the router as tail-called stages; HealthCheck
--   (bpf/xdp_healthchecker.bpf.c): `hc_rx` and `hc_tx` are `xdp_hc_rx` and `tc_hc_tx`. Both read
--   packets with the functions of Router.
-- - DynBuf (src/dyn_buf.c): the growing text buffer.
-- - Examples: each theorem at a concrete input.
--
-- Numbers are natural numbers with the wrap-around of the C type written out. A `char` array is
-- the list of its bytes before the terminator, a packet the list of its bytes. The machine is
-- little-endian. The clock, random inputs of the kernel and the success of allocations and
-- system calls are arguments. A write past the end of an array has no defined result: it is none.
--
-- Loops are structural where the source counts. On fuel are: the filling of a Maglev ring (the
-- ring size and one more rounds, and the ring size steps of a probe, both proved to be enough),
-- the DHCP option scanner (the size of the buffer, a byte at least per round), the Base64 decoder
-- (one more than the characters), the carry of `calc_ip_csum` (three rounds for ten words), the
-- doubling of a buffer (64 rounds, proved to be enough) and the digits of a number of 32 bits (10).
--
-- Not modelled: sockets, shell commands, the web server, netlink, the configuration reader, the
-- scripts, sessions and export of the PPPoE server, the proxy and VPN managers, the hardware
-- fingerprint and Ed25519 (a parameter of License). The LRU maps of the router are functions, and
-- the kernel's evictions are steps of their own; the maps of one CPU are modelled.
pub mod Base
pub mod Config
pub mod Checksum
pub mod Sticky
pub mod Maglev
pub mod WanManager
pub mod Prober
pub mod Dhcp
pub mod Base64
pub mod License
pub mod Router
pub mod Nat46
pub mod Pppoe
pub mod Dns64
pub mod Broadband
pub mod Dispatcher
pub mod HealthCheck
pub mod DynBuf
pub mod Examples
