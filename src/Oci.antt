-- ===== src/Oci.antt =====
-- pkg/oci/oci_configs.go: what the specification of a container says of its type, its limits and its sandbox.
pub mod Types
pub mod Defaults
pub mod Toggles
