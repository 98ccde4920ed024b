-- ===== src/Retrieve.antt =====
-- internal/retrieve: getting a file back from a disc, or from the other discs of its group.
pub mod Catalog
pub mod Job
pub mod Step
pub mod Read
pub mod Fetch
pub mod Manager
