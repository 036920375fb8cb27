-- ===== src/Catalog.antt =====
-- internal/catalog: the translation of canonical components into plans for one provider.
pub mod Mitigation
pub mod Names
pub mod Network
pub mod VirtualMachine
pub mod Architecture
pub mod Embedded
pub mod Environment
pub mod Hosts
pub mod LoadBalancer
pub mod ManagedDatabase
pub mod ObjectStorage
pub mod ScaleGroup
pub mod SecurityGroup
