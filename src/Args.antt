-- ===== src/Args.antt =====
-- The arguments of a message: include/sub0log/encode.hpp writes them, `Decoder` of
-- include/sub0log/reader.hpp reads them.
pub mod Encode
pub mod Decode
pub mod Plain
pub mod RoundTrip
