-- ===== src/Tests.antt =====
-- Runs of the model, and every theorem at a concrete input.
mod OfSlice
mod OfWal
mod OfSsTable
mod OfSkipList
mod OfRestart
mod OfVoxel
mod OfSpatial
mod OfIterator
mod OfEngine
mod OfSnapshot
