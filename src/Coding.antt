-- ===== src/Coding.antt =====
-- iris_vdec.c and iris_venc.c: what a decoder and an encoder do with the commands of a client, and the
-- measurement of the input rate of a decoder.
pub mod Commands
pub mod Unchanged
pub mod Resumed
pub mod Rate
pub mod Measured
