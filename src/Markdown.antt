-- ===== src/Markdown.antt =====
-- docs-api/app/markdown_sections.py: the sections of a page, and the two edits of
-- docs-api/app/publication.py that address one by its heading.
pub mod Lines
pub mod Sections
pub mod Bounds
pub mod Edits
pub mod EditLaws
