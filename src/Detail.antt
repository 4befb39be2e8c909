-- ===== src/Detail.antt =====
-- am++/detail: the data structures that the runtime is built on.
pub mod IdAssigner
pub mod AppendBuffer
pub mod BufferCache
pub mod Signal
pub mod VectorOfNoncopyable
