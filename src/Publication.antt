-- ===== src/Publication.antt =====
-- docs-api/app/publication.py: changes to the corpus, evaluated before they are published, with the
-- checks of docs-api/app/generator.py that a build makes of the corpus afterwards.
pub mod Types
pub mod Candidate
pub mod Pages
pub mod Apply
pub mod Checks
pub mod Evaluate
pub mod Sound
pub mod PageEffect
pub mod Effect
pub mod Frame
pub mod Accepted
pub mod Guard
pub mod Protected
pub mod Publish
pub mod UpdatedRows
pub mod Written
pub mod Committed
pub mod Build
pub mod Refines
