-- ===== src/Collection.antt =====
-- src/tubedepth/collection.py and fingerprints.py: collecting one kind of data, and not collecting
-- it twice.
pub mod State
pub mod Service
pub mod Again
pub mod Bundle
