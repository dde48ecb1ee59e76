-- ===== src/Text.antt =====
-- projectlib/projectsipstring.h and projectsipstring.cpp.
pub mod Url
pub mod Split
pub mod Std
pub mod Substring
