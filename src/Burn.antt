-- ===== src/Burn.antt =====
-- internal/burn: planning and burning discs, and the rebuilding of a lost one.
pub mod Cataloger
pub mod Plan
pub mod Tools
pub mod Job
pub mod Disc
pub mod Manager
pub mod Step
pub mod Run
pub mod Payload
pub mod Reconstruct
