-- ===== src/Dhcp.antt =====
-- src/dhcp_server.c: the DHCP server of the LAN. The socket is left out: a datagram is an argument,
-- a reply a result. Addresses are in network byte order, as in the source.
pub mod Options
pub mod Leases
pub mod Server
