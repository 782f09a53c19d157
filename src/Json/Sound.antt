-- ===== src/Json/Sound.antt =====
-- src/domain/RawJson.cpp: what is read can be written.
pub mod Outcome
pub mod Points
pub mod Steps
pub mod Texts
pub mod Numerals
pub mod Lists
pub mod Members
pub mod Values
