-- ===== src/Netcert.antt =====
-- The network certificate of a device (agent/internal/netcert) and the loop that renews it.
pub mod Phase
pub mod Renewal
