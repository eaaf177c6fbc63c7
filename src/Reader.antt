-- ===== src/Reader.antt =====
-- include/sub0log/reader.hpp, the raw layer: `SegmentReader`. `Header` opens an image, `Body` walks
-- the records of one chunk, `Visit` walks the chunks.
pub mod Header
pub mod Body
pub mod Visit
