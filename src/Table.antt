-- ===== src/Table.antt =====
-- src/table: arbitrary tabular sources.
pub mod Config
pub mod Source
pub mod Error
pub mod Csv
pub mod Cell
pub mod ReadCsv
pub mod Json
pub mod Index
pub mod Positions
pub mod Build
pub mod Query
