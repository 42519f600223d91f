-- ===== src/Proto.antt =====
-- What the registry's messages have in common (protos/feast/core/*.proto): a name and a project,
-- by which the registry finds them, beside the rest of the message. In most messages both stand
-- in `spec`; in `DataSource` and `ValidationReference` they stand at the top.
pub mod Distinct
use feast.Base.{ℕ, String, Bool, ◌&&◌, Option, List, ◌==◌, string_eq}
use feast.Base.Dict.{Dict}

pub record Proto (B : Type 0) : Type 0 where
  pub name : String
  pub project : String
  pub body : B

-- `proto.spec.project = project`
abbrev pub set_project : {B : Type 0} → String → Proto B → Proto B
set_project project p = record p { project = project }

-- `proto.spec.name == name and proto.spec.project == project`
unfoldable pub matches : {B : Type 0} → String → String → Proto B → Bool
matches name project p = p.name == name && p.project == project

-- `proto.name == name`
unfoldable pub has_name : {B : Type 0} → String → Proto B → Bool
has_name name p = p.name == name

-- `proto.spec.project == project`
unfoldable pub in_project : {B : Type 0} → String → Proto B → Bool
in_project project p = p.project == project
