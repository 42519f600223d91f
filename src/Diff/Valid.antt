-- ===== src/Diff/Valid.antt =====
-- `apply_diff_to_registry` of sdk/python/feast/diff/registry_diff.py and the registry's invariant.
use feast.Base.{String}
use feast.Registry.State.{State, ◌>>◌}
use feast.Registry.Valid.{Keeps, Anything}
use feast.Diff.Registry.{Methods}

-- Calls for the objects of one class that keep the invariant.
record KeepValid {A : Type 0} (methods : Methods A) : Type 0 where
  pub applies : (o : A) → Keeps Anything (methods.apply o)
  pub misses : Keeps Anything methods.missing
  pub drops : (n : String) → Keeps Anything (methods.drop n)
