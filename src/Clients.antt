-- ===== src/Clients.antt =====
-- user-clients: the programs that use the devices through their drivers.
pub mod Font
pub mod Print
pub mod Hammer
