-- ===== src/Tests.antt =====
-- Concrete runs of the models, and applications of the theorems to concrete inputs.
pub mod Io
pub mod Names
pub mod Sftp
pub mod Server
pub mod Plugins
pub mod Streams
pub mod Notifications
pub mod Share
pub mod App
pub mod Notificator
pub mod AlbumArt
pub mod Mpris
pub mod Messages
pub mod Keyboard
pub mod SortFilter
pub mod Mirror
pub mod Devices
