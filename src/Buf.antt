-- ===== src/Buf.antt =====
-- common/buf: the managed buffers.
pub mod Buffer
pub mod MultiBuffer
