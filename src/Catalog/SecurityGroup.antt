-- ===== src/Catalog/SecurityGroup.antt =====
-- internal/catalog/securitygroup.go: a security group's spec, its plan and the translation. The checks
-- of a spec are in `Checks`, the provider's limits in `Limits`; net.ParseCIDR is an argument.
pub mod Types
pub mod Checks
pub mod Limits
pub mod Translate
pub mod Valid
pub mod Sound
pub mod Admitted
pub mod Rules
mod Tests
