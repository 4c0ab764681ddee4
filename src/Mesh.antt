-- ===== src/Mesh.antt =====
-- The projection of SAPIENT data into the documents of the peat mesh: mesh_fields.rs of peat-sapient,
-- and translator.rs and subscriber.rs of peat-mesh-sapient.
pub mod Fields
pub mod Translator
pub mod Subscriber
pub mod Receive
pub mod Transport
