-- ===== src/Msource.antt =====
-- src/msource/msource.cpp: memory sources. A source has arenas, which dlmalloc manages, and blocks that
-- are mapped one by one; a footer below each block tells where it is from.
pub mod Align
pub mod Counter
pub mod Source
pub mod Chunks
pub mod Linking
pub mod Unlinking
pub mod Mapped
pub mod Ending
pub mod Unmapping
pub mod Aligned
pub mod Small
pub mod Returned
pub mod Tests
pub mod Release
pub mod World
