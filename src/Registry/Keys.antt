-- ===== src/Registry/Keys.antt =====
-- What the loops of sdk/python/feast/infra/registry/registry.py over a repeated field do to the lookups
-- by name and project of sdk/python/feast/infra/registry/proto_registry_utils.py.
use feast.Base.{
  ℕ, String, Bool, true, false, ◌≡◌, ◌≢◌, refl, sym, ap, subst, Bool-cases, inl, inr, ◌∙◌, Option,
  none, some, Result, ok, err, Error, find_first, delete_first, if◌then◌else◌, arith, ==-refl,
  string_eq, ◌==◌, ◌&&◌,
}
use feast.Proto.{Proto, matches}
use feast.Proto.Distinct.{find, find-upserted, find-delete_first, find-delete_first_ne}
use feast.Registry.State.{RegistryProto, Env, State}
use feast.Registry.Lookup.{get_proto, found, reading}
use feast.Registry.Writes.{Repeated, replace, remove}
use feast.Registry.Valid.{IsValid}
use feast.Registry.Valid.Fields.{Keyed}
use feast.Registry.Cache.{get_registry_proto}
use feast.Registry.Ends.{Ends-bind, Ends-outcome}
use feast.Registry.Settled.{Known, Settled, versioned, Known-versioned}
use feast.Registry.Prepared.{get_registry_proto-Settled}
use feast.Registry.Written.{lift-Ends, Wrote}

pub matches_refl : {B : Type 0} (p : Proto B) → matches p.name p.project p ≡ true
unfolding matches
matches_refl p = rw (==-refl p.name, ==-refl p.project)

found-if :
    {B : Type 0} (e : Error) (b : Bool) (p : Proto B) (o : Option (Proto B))
    → found e (if b then some p else o) ≡ (if b then ok p else found e o)
found-if e true p o = refl
found-if e false p o = refl

module _ {B : Type 0} (field : Repeated B) (keyed : Keyed field) where
  -- After `replace`, the message is found under its key, and the others as before.
  pub get_proto-replace :
      (e : Error) (n m : String) (p : Proto B) (r : RegistryProto)
      → IsValid r
      → get_proto e n m (field.get (replace field p r))
        ≡ (if matches n m p then ok p else get_proto e n m (field.get r))
  unfolding get_proto replace find_first
  get_proto-replace e n m p r h =
      ap (λ ps. get_proto e n m ps) (keyed.get_put _ r)
      ∙ ap (found e) (find-upserted n m p (field.get r) (keyed.distinct r h))
      ∙ found-if e (matches n m p) p (find n m (field.get r))

  -- `remove` raises what it is told to if nothing is there under the key. Otherwise nothing is
  -- there afterwards, and the others are found as before.
  pub remove-none :
      (n m : String) (r : RegistryProto) (otherwise : Result RegistryProto)
      → find n m (field.get r) ≡ none
      → remove field (matches n m) r otherwise ≡ otherwise
  unfolding remove
  remove-none n m r otherwise h = rw (h, remove)

  pub remove-some :
      (n m : String) (r : RegistryProto) (otherwise : Result RegistryProto) (p : Proto B)
      → find n m (field.get r) ≡ some p
      → remove field (matches n m) r otherwise
        ≡ ok (field.put (delete_first (matches n m) (field.get r)) r)
  unfolding remove
  remove-some n m r otherwise p h = rw (h, remove)

  pub get_proto-removed :
      (e : Error) (n m a b : String) (r : RegistryProto)
      → IsValid r
      → get_proto e n m (field.get (field.put (delete_first (matches a b) (field.get r)) r))
        ≡ (if n == a && m == b then err e else get_proto e n m (field.get r))
  unfolding get_proto
  get_proto-removed e n m a b r h =
      ap (λ ps. get_proto e n m ps) (keyed.get_put _ r) ∙ elim (Bool-cases (n == a && m == b)) [
        | inl same ↦ rw same (removed same)
        | inr other ↦
            rw other (ap (found e) (find-delete_first_ne n m a b (field.get r) (ground arith)))
      ]
    where
      removed :
          (n == a && m == b) ≡ true
          → found e (find n m (delete_first (matches a b) (field.get r))) ≡ err e
      removed same = ap (found e) (
          subst (λ n'. find n' m (delete_first (matches a b) (field.get r)) ≡ none) (ground arith)
            (subst (λ m'. find a m' (delete_first (matches a b) (field.get r)) ≡ none)
              (ground arith) (find-delete_first a b (field.get r) (keyed.distinct r h))))

-- A call of `get_*` or `list_*` for a project that has a name and that the message knows, where the cache
-- and the store hold that same message, reads it, whether or not the call may use the cache and whether
-- or not the cache has expired.
pub reading-Settled :
    {A : Type 0} (env : Env) (r : RegistryProto) (project : String) (allow_cache : Bool)
    (read : RegistryProto → Result A) (s : State)
    → project ≢ ""
    → Known project r
    → Settled r s
    → (reading env project allow_cache read s).0 ≡ read r
unfolding reading
reading-Settled env r project allow_cache read s h k settled =
    Ends-outcome (reading env project allow_cache read) s (read r) (
      Ends-bind (get_registry_proto env (some project) allow_cache) _ s
        (get_registry_proto-Settled env r project allow_cache s h k settled)
        λ r' t d.
          lift-Ends (read r') t (λ a e. ap read (sym d.0) ∙ e)
            λ e raised. ap read (sym d.0) ∙ raised)

-- What is read after a change that was committed.
pub Wrote-reading :
    {A : Type 0} (env : Env) (project : String)
    (change : RegistryProto → Result (Option RegistryProto)) (allow_cache : Bool)
    (read : RegistryProto → Result A) (o : Result A) (t : State)
    → project ≢ ""
    → ((r r' : RegistryProto) → change r ≡ ok (some r') → Known project r → Known project r')
    → ((r r' : RegistryProto) (version : String) (now : ℕ)
        → IsValid r
        → change r ≡ ok (some r')
        → read (versioned version now r') ≡ o)
    → Wrote project change t
    → (reading env project allow_cache read t).0 ≡ o
Wrote-reading env project change allow_cache read o t h knows reads w =
    reading-Settled env (versioned w.version w.now w.after) project allow_cache read t h
      (Known-versioned project w.version w.now w.after (knows w.before w.after w.changed w.known))
      w.settled
    ∙ reads w.before w.after w.version w.now w.before_valid w.changed
