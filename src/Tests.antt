-- ===== src/Tests.antt =====
-- Concrete runs of the models, and the theorems at concrete inputs.
mod Answers
mod Checks
mod Fields
mod Verdicts
mod Limits
mod Gravity
mod Domains
mod Packets
mod Requests
mod Scores
mod Files
