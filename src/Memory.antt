-- ===== src/Memory.antt =====
-- packages/memory: the store of what agents observed, its validation and its summaries.
pub mod Dates
pub mod Schema
pub mod Store
pub mod Queries
pub mod Hybrid
pub mod Consolidator
pub mod ContextBuilder
mod Tests
