-- ===== src/Work.antt =====
-- docs-api/app/work_api.py and work_models.py: initiatives, their closure, and the capture inbox.
pub mod Types
pub mod Gates
pub mod Closure
pub mod Rows
pub mod Transition
pub mod Patch
pub mod Admitted
pub mod Lifecycle
pub mod Captures
pub mod Inbox
pub mod Triage
pub mod Create
pub mod Soak
pub mod Dependencies
