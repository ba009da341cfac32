-- ===== src/SsTable.antt =====
-- include/sstable_builder.h, src/sstable_builder.cpp, include/sstable_reader.h,
-- src/sstable_reader.cpp: sorted table files.
pub mod Format
pub mod Builder
pub mod Reader
pub mod Table
