-- ===== src/Registry/Written.antt =====
-- What the methods of sdk/python/feast/infra/registry/registry.py that change the registry have in
-- common: how `write` ends, from any valid state and from a settled one.
use feast.Base.{
  ℕ, String, Bool, true, ◌≡◌, ◌≢◌, refl, sym, subst, ap, ◌∙◌, Option, none, some, Result,
  ok-injective, err-injective, ok, err, Error, ◌+◌,
}
use feast.Registry.State.{
  RegistryProto, Env, State, Action, pure, lift, ◌>>=◌, modify, cached_proto, put_cached, utcnow,
  commit, uuid4, store_update,
}
use feast.Registry.Cache.{prepare}
use feast.Registry.Writes.{write, finish}
use feast.Registry.Ends.{Ends, Never, Ends-bind, Ends-weaken, Ends-Keeps}
use feast.Registry.Settled.{Known, Settled, versioned, cached_proto-Ends}
use feast.Registry.Prepared.{prepare-Ends, prepare-Settled}
use feast.Registry.Valid.{IsValid, StateValid}
use feast.Registry.Valid.Prepared.{prepare-Keeps}

pub lift-Ends :
    {A : Type 0} {P : A → State → Type 0} {E : Error → State → Type 0} (r : Result A) (s : State)
    → ((a : A) → r ≡ ok a → P a s)
    → ((e : Error) → r ≡ err e → E e s)
    → Ends P E (lift r) s
unfolding lift
lift-Ends (ok a) s p e = record { holds = p a refl }
lift-Ends (err x) s p e = record { holds = e x refl }

-- The calls at the start of a method whose value is known.
module _ {A B : Type 0} {Q : B → State → Type 0} {E : Error → State → Type 0} where
  pub lift-ok-Ends :
      (r : Result A) (a : A) (f : A → Action B) (s : State)
      → r ≡ ok a
      → Ends Q E (f a) s
      → Ends Q E (lift r >>= f) s
  lift-ok-Ends r a f s e q =
      Ends-bind (lift r) f s
        (lift-Ends {P = λ a' t. (a' ≡ a) × (t ≡ s)} r s
          (λ a' e'. (ok-injective a' a (sym e' ∙ e), refl)) λ x raised. cc)
        λ a' t c.
          subst (λ t. Ends Q E (f a') t) (sym c.1) (subst (λ a. Ends Q E (f a) s) (sym c.0) q)

pub utcnow-bind-Ends :
    {B : Type 0} {Q : B → State → Type 0} {E : Error → State → Type 0} (env : Env)
    (f : ℕ → Action B) (s : State)
    → Ends Q E (f (env.clock s.readings)) (record s { readings = s.readings + 1 })
    → Ends Q E (utcnow env >>= f) s
unfolding utcnow ◌>>=◌
utcnow-bind-Ends env f s q = record { holds = q.holds }

-- How a change ends whose outcome is known.
module _ {Q : Unit {0} → State → Type 0} {E : Error → State → Type 0} where
  pub finish-none :
      (env : Env) (do_commit : Bool) (s : State) → Q tt s → Ends Q E (finish env do_commit none) s
  unfolding finish pure
  finish-none env do_commit s q = record { holds = q }

  pub finish-commit :
      (env : Env) (r : RegistryProto) (s : State)
      → ((version : String) (now : ℕ) (t : State) → Settled (versioned version now r) t → Q tt t)
      → Ends Q E (finish env true (some r)) s
  unfolding finish put_cached commit store_update uuid4 utcnow modify pure ◌>>=◌
  finish-commit env r s q = record {
    holds = q (env.uuid s.draws) (env.clock s.readings) _ (record { cached = refl; stored = refl });
  }

-- What a change that was committed leaves behind: `before` is the message that it was made on.
pub record Wrote (project : String) (change : RegistryProto → Result (Option RegistryProto))
    (t : State) : Type 0 where
  pub before : RegistryProto
  pub after : RegistryProto
  pub version : String
  pub now : ℕ
  pub before_valid : IsValid before
  pub known : Known project before
  pub changed : change before ≡ ok (some after)
  pub settled : Settled (versioned version now after) t

module _ (env : Env) where
  -- From any valid state: a change that is made on every valid message is made and stored.
  pub write-Wrote :
      (project : String) (change : RegistryProto → Result (Option RegistryProto)) (s : State)
      → project ≢ ""
      → StateValid s
      → ((r : RegistryProto) → IsValid r → (r' : RegistryProto) × (change r ≡ ok (some r')))
      → Ends (λ _ t. Wrote project change t) Never (write env project change true) s
  unfolding write
  write-Wrote project change s h v makes =
      Ends-bind (prepare env project) _ s
        (Ends-Keeps (prepare env project) s (prepare-Ends env project s h)
          (prepare-Keeps env project) v)
        λ r t c.
          Ends-bind cached_proto _ t (cached_proto-Ends {Q = λ r' u. r' ≡ r} r t c.0.0 refl)
            λ r' u same.
              let made = makes r' (subst IsValid (sym same) c.1) in
              Ends-bind (lift (change r')) _ u
                (lift-Ends {P = λ o _. o ≡ some made.0} (change r') u
                  (λ o e. ok-injective o (some made.0) (sym e ∙ made.1)) λ e raised. cc)
                λ o w found.
                  subst (λ o. Ends (λ _ t. Wrote project change t) Never (finish env true o) w)
                    (sym found)
                    (finish-commit env made.0 w λ version now x settled. record {
                      before = r';
                      after = made.0;
                      version = version;
                      now = now;
                      before_valid = subst IsValid (sym same) c.1;
                      known = subst (Known project) (sym same) c.0.1;
                      changed = made.1;
                      settled = settled;
                    })

  module _ {Q : Unit {0} → State → Type 0} {E : Error → State → Type 0} (r : RegistryProto)
      (project : String) (change : RegistryProto → Result (Option RegistryProto)) (do_commit : Bool)
      (s : State) (h : project ≢ "") (k : Known project r) (settled : Settled r s) where
    -- From a settled state, by what the change does to the stored message.
    pub write-Settled :
        ((o : Option RegistryProto) (t : State)
          → change r ≡ ok o
          → Settled r t
          → Ends Q E (finish env do_commit o) t)
        → ((e : Error) (t : State) → change r ≡ err e → Settled r t → E e t)
        → Ends Q E (write env project change do_commit) s
    unfolding write
    write-Settled makes raises =
        Ends-bind (prepare env project) _ s
          (Ends-weaken (prepare env project) s (prepare-Settled env r project s h k settled))
          λ _ t c.
            Ends-bind cached_proto _ t
              (cached_proto-Ends {Q = λ r' u. (r' ≡ r) × Settled r u} r t (c.1).cached (refl, c.1))
              λ r' u d.
                Ends-bind (lift (change r')) _ u
                  (lift-Ends {P = λ o w. (change r ≡ ok o) × Settled r w} (change r') u
                    (λ o e. (ap change (sym d.0) ∙ e, d.1))
                    λ e raised. raises e u (ap change (sym d.0) ∙ raised) d.1)
                  λ o w e. makes o w e.0 e.1

  module _ (r : RegistryProto) (project : String)
      (change : RegistryProto → Result (Option RegistryProto)) (s : State) (h : project ≢ "")
      (k : Known project r) (settled : Settled r s) where
    -- The three ends of a change of a settled registry: it is stored, it is not needed, it raises.
    pub write-commits :
        (r' : RegistryProto)
        → change r ≡ ok (some r')
        → Ends
            (λ _ t. (version : String) × (now : ℕ) × Settled (versioned version now r') t)
            Never
            (write env project change true)
            s
    write-commits r' made =
        write-Settled r project change true s h k settled
          (λ o t e c.
            subst
              (λ o.
                Ends (λ _ t. (version : String) × (now : ℕ) × Settled (versioned version now r') t)
                  Never (finish env true o) t)
              (ok-injective (some r') o (sym made ∙ e))
              (finish-commit env r' t λ version now u d. (version, now, d)))
          λ e t raised c. cc

    pub write-unchanged :
        (do_commit : Bool)
        → change r ≡ ok none
        → Ends (λ _ t. Settled r t) Never (write env project change do_commit) s
    write-unchanged do_commit same =
        write-Settled r project change do_commit s h k settled
          (λ o t e c.
            subst (λ o. Ends (λ _ t. Settled r t) Never (finish env do_commit o) t)
              (ok-injective none o (sym same ∙ e)) (finish-none env do_commit t c))
          λ e t raised c. cc

    pub write-raises :
        (do_commit : Bool) (e : Error)
        → change r ≡ err e
        → Ends (λ _ _. ⊥) (λ e' t. (e' ≡ e) × Settled r t) (write env project change do_commit) s
    write-raises do_commit e failed =
        write-Settled r project change do_commit s h k settled
          (λ o t e' c. elim (ok_absurd o e') [ ])
          λ e' t raised c. (err-injective (Option RegistryProto) e' e (sym raised ∙ failed), c)
      where
        ok_absurd : (o : Option RegistryProto) → change r ≡ ok o → ⊥
        ok_absurd o e' = cc
