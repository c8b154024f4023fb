-- ===== src/Examples.antt =====
-- Concrete inputs of the program, and the theorems applied to them.
pub mod Seasons
pub mod Candidates
pub mod Filters
pub mod Torrents
pub mod Evaluation
pub mod Plans
pub mod Fetches
pub mod Flights
pub mod Places
pub mod Owners
pub mod Searches
pub mod Signins
pub mod Publications
