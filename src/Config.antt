-- ===== src/Config.antt =====
-- pkg/utils/parser.go, pkg/configstack and pkg/oci: the configuration of the runtime and of a client.
pub mod Ini
pub mod Layer
pub mod Discovery
pub mod Runtime
pub mod Stack
