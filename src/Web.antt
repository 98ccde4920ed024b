-- ===== src/Web.antt =====
-- internal/web: the handlers of the pages.
pub mod Staging
pub mod Selection
pub mod Grouping
pub mod Server
pub mod Handlers
pub mod Answer
pub mod Scanned
pub mod Pages
pub mod Applied
pub mod Views
pub mod Front
pub mod Reading
pub mod Adding
pub mod Fitting
pub mod Guarded
pub mod Refused
pub mod Drive
