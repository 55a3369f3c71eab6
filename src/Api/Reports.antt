-- ===== src/Api/Reports.antt =====
-- internal/api/report_handler.go: the report pages for browsers.
pub mod Runes
pub mod Utf8
pub mod Labels
pub mod Charts
pub mod Lines
pub mod Pages
pub mod DetailBody
pub mod Bodies
pub mod Marks
pub mod Markup
pub mod Renamed
pub mod Truncation
pub mod Bars
pub mod Shares
pub mod Index
pub mod Agreement
