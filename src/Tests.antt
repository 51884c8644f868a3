-- ===== src/Tests.antt =====
-- Concrete data, and the theorems on it.
mod Samples
mod Storage
mod Graphs
mod Allocation
mod Folding
mod Compiling
