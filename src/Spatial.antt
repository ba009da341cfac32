-- ===== src/Spatial.antt =====
-- include/spatial_key.h: the key of a voxel and its bytes, and the merging of Morton ranges.
pub mod Key
pub mod Ranges
pub mod Morton
