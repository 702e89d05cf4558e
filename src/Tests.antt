-- ===== src/Tests.antt =====
-- Data for examples, the theorems at concrete inputs, and runs of the code.
mod Fixture
mod Requests
mod Executor
mod Chains
mod Contexts
mod Documents
mod Writing
mod Transitions
mod Verification
mod Proofs
mod Keys
mod Drafts
mod Records
mod Divergences
