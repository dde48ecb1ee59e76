-- ===== src/Directory.antt =====
-- sip/projectsipdirectory.h and projectsipdirectory.cpp: the tree of domains with their users.
pub mod Tree
pub mod Domains
pub mod Http
