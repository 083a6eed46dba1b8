-- ===== src/History.antt =====
-- server/history.go and history_pages.go: the measures of a day and of its hours, and how the pages
-- say a duration.
pub mod Durations
pub mod Hours
pub mod Counted
pub mod Days
