-- ===== src/Worker.antt =====
-- src/tubedepth/worker.py: claiming jobs, running them, and writing down what happened.
pub mod Gates
pub mod Outcome
pub mod Execute
pub mod Drain
pub mod Serve
