-- ===== src/SqlRegistry/Agreement.antt =====
-- When a call of a method of `SqlRegistry` (sdk/python/feast/infra/registry/sql.py) agrees with the map that
-- its table stands for.
use feast.Base.{◌≡◌, refl, sym, subst, false, Result, nat_eq, string_eq}
use feast.SqlRegistry.Tables.{SqlTable, Laws, same_table, same_key, same_metadata_key}
use feast.SqlRegistry.State.{Sql, SqlState, put_table}
use feast.SqlRegistry.Calls.{Model}
use feast.SqlRegistry.Rows.{Represents}

module _ {B : Type 0} (sql : Sql B) (laws : Laws same_key sql.objects)
    (metadata_laws : Laws same_metadata_key sql.metadata) (table : SqlTable) where
  -- A state whose table stands for a model's map.
  pub record Refines (s : SqlState sql) (m : Model B) : Type 0 where
    pub rows : Represents sql.objects laws (s.tables table) m.entries
    pub clock : s.readings ≡ m.readings

  -- The other tables have not changed.
  abbrev pub Untouched : SqlState sql → SqlState sql → Type 0
  Untouched s t = (u : SqlTable) → same_table u table ≡ false → t.tables u ≡ s.tables u

  -- What a call did, and what the model says of it.
  pub record Agrees {A : Type 0} (s : SqlState sql) (did : Result A × SqlState sql)
      (says : Result A × Model B) : Type 0 where
    pub answers : did.0 ≡ says.0
    pub refines : Refines did.1 says.1
    pub untouched : Untouched s did.1

  pub agree :
      {A : Type 0} (s : SqlState sql) (did : Result A × SqlState sql) (says : Result A × Model B)
      (r : Result A) (t : SqlState sql) (n : Model B)
      → did ≡ (r, t)
      → says ≡ (r, n)
      → Refines t n
      → Untouched s t
      → Agrees s did says
  agree s did says r t n did_so says_so refines untouched =
      subst (λ d. Agrees s d says) (sym did_so)
        (subst (Agrees s (r, t)) (sym says_so)
          (record { answers = refl; refines = refines; untouched = untouched }))

  pub Untouched-put_table :
      (c : sql.objects.Contents) (s : SqlState sql) → Untouched s (put_table table c s)
  unfolding put_table
  Untouched-put_table c s u other = rw other refl
