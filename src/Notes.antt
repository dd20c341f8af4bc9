-- ===== src/Notes.antt =====
-- The Markdown reader of release notes in scripts/release_control.py: _release_fence to
-- _release_headings.
pub mod Fence
pub mod Comment
pub mod Lines
pub mod Spans
pub mod Masks
pub mod Offsets
