-- ===== src/SqlRegistry/State.antt =====
-- The state of a `SqlRegistry` of sdk/python/feast/infra/registry/sql.py: the tables, the cache, the clock and
-- the identifiers drawn; and methods as functions on that state that may raise.
use feast.Base.{Option, ◌≡◌, ap, ℕ, suc, String, Result, ok, err, Error, if◌then◌else◌, List}
use feast.Registry.State.{RegistryProto}
use feast.SqlRegistry.Tables.{SqlTable, same_table, ObjectRow, MetadataRow, Table}

-- What the registry asks of the database library, of Python's standard library and of its formatting: the
-- statements, the readings of the clock, in microseconds, the whole seconds of a time (`timestamp()`
-- takes it for local time), the identifiers, the decimal form of a number, and the orders in which
-- sets of tables and of projects are walked.
pub record Sql (B : Type 0) : Type 1 where
  pub objects : Table (ObjectRow B)
  pub metadata : Table MetadataRow
  pub clock : ℕ → ℕ
  pub timestamp : ℕ → ℕ
  pub uuid : ℕ → String
  pub decimal : ℕ → String
  pub table_order : List SqlTable → List SqlTable
  pub project_order : List String → List String

module _ {B : Type 0} (sql : Sql B) where
  pub record SqlState : Type 0 where
    pub tables : SqlTable → sql.objects.Contents
    pub feast_metadata : sql.metadata.Contents
    pub cached_registry_proto : Option RegistryProto
    pub cached_registry_proto_created : Option ℕ
    -- In microseconds; 0 means that the cache does not expire.
    pub cached_registry_proto_ttl : ℕ
    -- How often the clock has been read, and how many identifiers have been drawn.
    pub readings : ℕ
    pub draws : ℕ

  -- A method call. What was written before an exception stays written.
  abbrev pub SqlAction : Type 0 → Type 0
  SqlAction A = SqlState → Result A × SqlState

module _ {B : Type 0} {sql : Sql B} where
  infixl 5 ◌>>=◌
  unfoldable pub ◌>>=◌ : {A C : Type 0} → SqlAction sql A → (A → SqlAction sql C) → SqlAction sql C
  (m >>= f) s = let (r, t) = m s in elim r [ ok a ↦ f a t | err e ↦ (err e, t) ]

  infixl 5 ◌>>◌
  abbrev pub ◌>>◌ : {A C : Type 0} → SqlAction sql A → SqlAction sql C → SqlAction sql C
  m >> k = m >>= λ _. k

  unfoldable pub pure : {A : Type 0} → A → SqlAction sql A
  pure a s = (ok a, s)

  unfoldable pub lift : {A : Type 0} → Result A → SqlAction sql A
  lift r s = (r, s)

  -- `datetime.utcnow()`
  unfoldable pub utcnow : SqlAction sql ℕ
  utcnow s = (ok (sql.clock s.readings), record s { readings = suc s.readings })

  -- `f"{uuid.uuid4()}"`
  unfoldable pub uuid4 : SqlAction sql String
  uuid4 s = (ok (sql.uuid s.draws), record s { draws = suc s.draws })

  -- The contents of one table replaced.
  unfoldable pub put_table : SqlTable → sql.objects.Contents → SqlState sql → SqlState sql
  unfolding same_table
  put_table table contents s = record s {
    tables = λ t. if same_table t table then contents else s.tables t;
  }

  -- A chain whose first call returns, or raises.
  pub >>=-ok :
      {A C : Type 0} (m : SqlAction sql A) (f : A → SqlAction sql C) (s : SqlState sql)
      {t : SqlState sql} {a : A}
      → m s ≡ (ok a, t)
      → (m >>= f) s ≡ f a t
  unfolding ◌>>=◌
  >>=-ok m f s returned = ap (λ p. elim p.0 [ ok a ↦ f a p.1 | err e ↦ (err e, p.1) ]) returned

  pub >>=-err :
      {A C : Type 0} (m : SqlAction sql A) (f : A → SqlAction sql C) (s : SqlState sql)
      {t : SqlState sql} {e : Error}
      → m s ≡ (err e, t)
      → (m >>= f) s ≡ (err e, t)
  unfolding ◌>>=◌
  >>=-err m f s raised = ap (λ p. elim p.0 [ ok a ↦ f a p.1 | err e ↦ (err e, p.1) ]) raised
