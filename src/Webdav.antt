-- ===== src/Webdav.antt =====
-- internal/webdav: one tree of files for the clients, made of a directory for each category.
pub mod Clean
pub mod Combined
pub mod Isolation
pub mod Listing
pub mod Size
