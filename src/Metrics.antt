-- ===== src/Metrics.antt =====
-- The collectors' plugins, under collectors/ and services/: the metrics that they read in /proc.
pub mod Memory
pub mod Counters
pub mod Cpu
pub mod Loads
pub mod ServiceMemory
pub mod ServiceCpu
pub mod Disks
pub mod Thermal
pub mod Speeds
