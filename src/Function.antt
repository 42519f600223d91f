-- ===== src/Function.antt =====
-- Python functions that users define, as far as feature views look at them, and `dill`, the package
-- that writes and reads them.
use feast.Base.{String, ◌≡◌}

-- `f.__name__` and `f.__code__.co_code`.
pub record Function : Type 0 where
  pub fun_name : String
  pub co_code : String

-- `dill.dumps(f, recurse=True)` and `dill.loads(s)`: what has been written is read back.
pub record Dill : Type 0 where
  pub dumps : Function → String
  pub loads : String → Function
  pub loads-dumps : (f : Function) → loads (dumps f) ≡ f

-- The message `UserDefinedFunction`.
pub record UserDefinedFunctionProto : Type 0 where
  pub fun_name : String
  pub body : String
  pub body_text : String
