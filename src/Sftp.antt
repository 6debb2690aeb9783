-- ===== src/Sftp.antt =====
-- The SFTP server of plugins/sftpserver.
pub mod Types
pub mod Attributes
pub mod Commands
pub mod Dispatch
pub mod Server
