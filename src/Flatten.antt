-- ===== src/Flatten.antt =====
-- src/tubedepth/flatten.py: turning stored payloads into rows that SQL can ask about.
pub mod Rows
pub mod Transforms
pub mod Tables
pub mod Work
pub mod Query
pub mod Service
