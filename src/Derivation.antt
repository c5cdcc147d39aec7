-- ===== src/Derivation.antt =====
-- scripts/generated_conditions.py: which conditions of an artifact hold now. `bound` stands for
-- `_bounded_briefing`, which cuts a briefing to the size that WORK accepts.
mod Catalogues
mod Artifact
pub mod Kinds
pub mod Drift
pub mod Converged
unfoldable pub use Catalogues.*
unfoldable pub use Artifact.*
