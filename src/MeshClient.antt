-- ===== src/MeshClient.antt =====
-- dersp/src/mesh_client.rs: the connection to another server of the mesh.
pub mod Loops
pub mod Relaying
pub mod Forwarding
pub mod Connect
pub mod Running
pub mod Opening
