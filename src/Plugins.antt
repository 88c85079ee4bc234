-- ===== src/Plugins.antt =====
-- daemon/fedoralink/plugins: the small plugins, each with the state that it keeps.
pub mod Battery
pub mod Clipboard
pub mod Media
pub mod Presence
