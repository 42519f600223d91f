-- ===== src/Diff.antt =====
-- The comparison of what is there with what is desired: sdk/python/feast/diff.
pub mod Infra
pub mod Update
pub mod ByKind
pub mod Registry
pub mod Valid
pub mod Tagging
pub mod Partition
mod Tests
use feast.Base.{String, Option}

-- `TransitionType` of property_diff.py
pub data TransitionType : Type 0 where
  unknown create delete update unchanged : TransitionType

-- `PropertyDiff` of property_diff.py. A value that is a message which is not set is `none`.
pub record PropertyDiff : Type 0 where
  pub property_name : String
  pub val_existing : Option String
  pub val_declared : Option String
