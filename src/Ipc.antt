-- ===== src/Ipc.antt =====
-- kernel/ipc: message ports. One port's queue is in Port, the table of ports in Table.
pub mod Message
pub mod Port
pub mod Rights
pub mod Table
mod Tests
