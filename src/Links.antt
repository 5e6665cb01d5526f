-- ===== src/Links.antt =====
-- scripts/check-doc-links.py: the relative links and the heading anchors of the tracked Markdown.
pub mod Fences
pub mod Blocks
pub mod Spans
pub mod Anchors
pub mod Headings
pub mod Numbering
pub mod Titles
pub mod Slugs
pub mod Targets
pub mod Paths
pub mod Check
pub mod Parents
pub mod Clean
pub mod Judged
pub mod Verdict
mod Tests
