-- ===== src/Tui.antt =====
-- tui.rs and tui/: the interactive view of a report, its layout, its list and its keys.
pub mod Layout
pub mod Entries
pub mod App
pub mod Menus
pub mod Input
pub mod Run
