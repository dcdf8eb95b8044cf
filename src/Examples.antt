-- ===== src/Examples.antt =====
-- Concrete inputs for the theorems, and tests.
mod Admission
mod JobTable
mod Intervals
mod Ranges
mod Downloads
mod Payments
mod Stages
mod Filenames
mod Tokens
mod Grants
mod Mux
mod Premium
