-- ===== src/Plugins.antt =====
-- The plugins under plugins/ that keep a state of their own.
pub mod Packet
pub mod Telephony
pub mod Battery
pub mod Clipboard
pub mod Notifications
pub mod Share
pub mod AlbumArt
pub mod Mpris
