-- ===== src/Buffer/Aligned.antt =====
-- The sizes of the internal buffers are whole numbers of DMA blocks.
pub mod Decoders
pub mod Encoders
pub mod Kinds
