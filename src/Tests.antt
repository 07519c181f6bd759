-- ===== src/Tests.antt =====
-- Concrete systems, and the theorems at inputs that exercise the code.
mod Chains
mod Clients
mod Connecting
mod Expiry
mod Files
mod Cuts
mod Fixtures
mod Hashes
mod Held
mod Lines
mod Protocols
mod Io
mod Servers
mod Sessions
mod Systems
mod Transfers
mod Tunnels
