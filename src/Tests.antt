-- ===== src/Tests.antt =====
-- Concrete runs of the functions of include/sub0log/wire.hpp, chunk.hpp and reader.hpp.
mod Wire
mod Records
mod Args
mod Decoding
mod Segments
mod Logger
mod Capture
mod Export
