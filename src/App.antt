-- ===== src/App.antt =====
-- Parts of the application under app/src/.
pub mod Jobs
pub mod Notificator
pub mod Models
pub mod Keyboard
pub mod SortFilter
pub mod Devices
