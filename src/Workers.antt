-- ===== src/Workers.antt =====
-- src/core/workers: the debouncer, the startup gate and the refresh coalescer.
pub mod Debouncer
pub mod StartupReadGate
pub mod RefreshCoalescer
