-- ===== src/Tests.antt =====
-- Concrete inputs for the theorems: tests of the definitions, and each theorem at one input.
pub mod Samples
pub mod Jobs
pub mod Routes
pub mod Stores
pub mod Drains
pub mod Collation
pub mod Flattening
pub mod Credentials
pub mod Collecting
pub mod Encoding
pub mod Serving
mod Carrying
mod Captions
mod Spellings
mod Watching
mod Responses
