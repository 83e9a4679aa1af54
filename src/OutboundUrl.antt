-- ===== src/OutboundUrl.antt =====
-- packages/shared-core/src/outbound-url.ts: the guard on server-side requests to URLs that tenants
-- give. What node:net, node:dns and the URL parser answer are parameters.
pub mod Parsing
pub mod Address
pub mod Names
pub mod Allowlist
pub mod Floor
pub mod Guard
pub mod Safe
pub mod Loopback
pub mod Tests
