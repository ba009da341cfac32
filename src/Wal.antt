-- ===== src/Wal.antt =====
-- include/wal_logger.h and src/wal_logger.cpp: the write-ahead log.
pub mod Crc
pub mod Record
pub mod Recover
pub mod Logger
