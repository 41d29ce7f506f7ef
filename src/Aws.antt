-- ===== src/Aws.antt =====
-- pkg/clients/aws.go: the helpers that every client package uses.
pub mod Pointers
pub mod Errors
pub mod Tags
pub mod Json
