-- ===== src/Fs.antt =====
-- kernel/fs: mode bits and access control lists.
pub mod Permissions
pub mod Acl
mod Tests
