-- ===== src/Csv.antt =====
-- CSV.cpp and CSV.h: the escaping of strings, and tables.
pub mod Escape
pub mod Unescape
pub mod Values
pub mod Rows
pub mod Scans
pub mod Fields
pub mod Quoting
pub mod RoundTrip
pub mod Texts
pub mod RowFaults
pub mod HeaderMap
pub mod Tables
pub mod Names
pub mod Columns
pub mod Models
pub mod HeaderRules
pub mod Naming
pub mod Renaming
mod Tests
mod RowTests
