-- ===== src/Main.antt =====
-- src/main.c and src/include/bt_config.h: the configuration, the cores of the threads, and the order in
-- which the pipeline starts and stops.
pub mod Config
pub mod Cores
pub mod Pipeline
pub mod Queues
mod Tests
