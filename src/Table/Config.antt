-- ===== src/Table/Config.antt =====
-- src/table/config.rs: what a table source states.
use factbook_rs.Prelude.{Bool, List}
use factbook_rs.Prelude.Text.{Text}

pub data TableFormat : Type 0 where
  csv : Bool → TableFormat
  json : TableFormat

pub data Schema : Type 0 where
  auto : Schema
  named : List Text → Schema

pub data Index : Type 0 where
  ip prefix : Index
  column : Text → Index
