-- ===== src/Io.antt =====
-- File transfers: pluginscommon.
pub mod Device
pub mod CopyJob
pub mod FileHelper
pub mod DownloadJob
