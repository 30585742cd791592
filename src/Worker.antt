-- ===== src/Worker.antt =====
-- internal/worker/pool.go: the pool of workers, as atomic steps that goroutines interleave.
pub mod Pool
pub mod System
pub mod Invariant
pub mod Conservation
pub mod Shutdown
