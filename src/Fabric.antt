-- ===== src/Fabric.antt =====
-- The event queue and the completion queue of src/net/fabric/fabric.hpp, with the endpoints that wait on
-- them. What libfabric gives is an argument of each operation.
pub mod Events
pub mod Completions
pub mod Infos
pub mod Resources
mod Tests
