-- ===== src/Gt06.antt =====
-- src/simulator/gt06.js: the GT06 codec. A Buffer is the list of its bytes.
pub mod Buffer
pub mod Crc
pub mod Bcd
pub mod Decoder
pub mod Frame
pub mod Location
mod Examples
