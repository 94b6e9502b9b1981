-- ===== src/Tests.antt =====
-- Concrete runs of the program's parts, and the theorems at concrete inputs.
mod Fixtures
mod Routes
mod Overlapping
mod Names
mod Answers
mod Platform
mod Loading
mod Running
mod Reloading
mod Installed
mod Retrying
mod Exchange
