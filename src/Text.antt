-- ===== src/Text.antt =====
-- Sloppy/String.h and String.cpp: estring, an std::string with more member functions. A string is
-- the list of its characters' codes as unsigned bytes; character classes are those of the "C"
-- locale. A member function that changes the string returns the new one.
pub mod Edit
pub mod Trim
pub mod Search
pub mod Split
pub mod Cuts
pub mod Parts
pub mod Joined
pub mod Replaced
pub mod Args
pub mod Tags
pub mod Numbers
pub mod Print
pub mod Case
mod Tests
