-- ===== src/Tests.antt =====
-- Runs of the definitions and theorems at concrete inputs.
mod Packing
mod Rebuilding
mod Planning
mod Burning
mod Cataloging
mod Retrieving
mod Mounting
mod Serving
mod Running
