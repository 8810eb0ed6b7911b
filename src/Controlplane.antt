-- ===== src/Controlplane.antt =====
-- Package controlplane: where the policies of an executor come from.
pub mod Cache
pub mod Static
pub mod Remote
