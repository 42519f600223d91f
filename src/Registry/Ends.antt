-- ===== src/Registry/Ends.antt =====
-- How a method of the class `Registry` (sdk/python/feast/infra/registry/registry.py) ends from a given
-- state: what holds of its value and the state after it if it returns, and of the exception if it
-- raises. With `Never` for the exceptions, the method returns.
use feast.Base.{
  Bool, true, false, ◌≡◌, refl, sym, Option, none, some, Result, ok, err, Error, file_not_found,
  if◌then◌else◌,
}
use feast.Registry.Valid.{StateValid, Keeps, Outcome}
use feast.Registry.State.{State, Action, catch_file_not_found, ◌>>=◌}

abbrev pub EndsIn :
    {A : Type 0} → (A → State → Type 0) → (Error → State → Type 0) → Result A × State → Type 0
EndsIn Q E (ok a, t) = Q a t
EndsIn Q E (err e, t) = E e t

pub record Ends {A : Type 0} (Q : A → State → Type 0) (E : Error → State → Type 0) (m : Action A)
    (s : State) : Type 0 where
  pub holds : EndsIn Q E (m s)

-- No exception.
abbrev pub Never : Error → State → Type 0
Never e t = ⊥

-- The exception that the handler of a `try` takes.
abbrev pub NotFound : (State → Type 0) → Error → State → Type 0
NotFound H e t = (e ≡ file_not_found) × H t

module _ {A : Type 0} {Q : A → State → Type 0} {E : Error → State → Type 0} where
  pub Ends-eq :
      (m : Action A) (s : State) (a : A) (t : State) → m s ≡ (ok a, t) → Q a t → Ends Q E m s
  Ends-eq m s a t e q = record { holds = rw e q }

  pub Ends-if :
      (b : Bool) (m n : Action A) (s : State)
      → (b ≡ true → Ends Q E m s)
      → (b ≡ false → Ends Q E n s)
      → Ends Q E (if b then m else n) s
  Ends-if true m n s p q = p refl
  Ends-if false m n s p q = q refl

  pub Ends-option :
      {C : Type 0} (o : Option C) (m : Action A) (k : C → Action A) (s : State)
      → (o ≡ none → Ends Q E m s)
      → ((c : C) → o ≡ some c → Ends Q E (k c) s)
      → Ends Q E (elim o [ none ↦ m | some c ↦ k c ]) s
  Ends-option none m k s p q = p refl
  Ends-option (some c) m k s p q = q c refl

-- A method that returns, whatever is asked of exceptions.
weakened :
    {A : Type 0} (Q : A → State → Type 0) (E : Error → State → Type 0) (run : Result A × State)
    → EndsIn Q Never run
    → EndsIn Q E run
weakened Q E (ok a, t) q = q
weakened Q E (err e, t) q = elim q [ ]

pub Ends-weaken :
    {A : Type 0} {Q : A → State → Type 0} {E : Error → State → Type 0} (m : Action A) (s : State)
    → Ends Q Never m s
    → Ends Q E m s
Ends-weaken {Q} {E} m s q = record { holds = weakened Q E (m s) q.holds }

-- A method that keeps the invariant, from a valid state: what it returns satisfies `P` too.
strengthened :
    {A : Type 0} (Q : A → State → Type 0) (E : Error → State → Type 0) (P : A → Type 0)
    (run : Result A × State)
    → EndsIn Q E run
    → Outcome P run.0
    → EndsIn (λ a t. Q a t × P a) E run
strengthened Q E P (ok a, t) q p = (q, p)
strengthened Q E P (err e, t) q p = q

pub Ends-Keeps :
    {A : Type 0} {Q : A → State → Type 0} {E : Error → State → Type 0} {P : A → Type 0}
    (m : Action A) (s : State)
    → Ends Q E m s
    → Keeps P m
    → StateValid s
    → Ends (λ a t. Q a t × P a) E m s
Ends-Keeps {A} {Q} {E} {P} m s q keeps v = record {
  holds = strengthened Q E P (m s) q.holds (keeps.at s v).1;
}

-- What is returned is the result of the call.
resulting :
    {A : Type 0} (Q : A → State → Type 0) (E : Error → State → Type 0) (run : Result A × State)
    → EndsIn Q E run
    → EndsIn (λ a t. (run.0 ≡ ok a) × Q a t) E run
resulting Q E (ok a, t) q = (refl, q)
resulting Q E (err e, t) q = q

pub Ends-result :
    {A : Type 0} {Q : A → State → Type 0} {E : Error → State → Type 0} (m : Action A) (s : State)
    → Ends Q E m s
    → Ends (λ a t. ((m s).0 ≡ ok a) × Q a t) E m s
Ends-result {A} {Q} {E} m s q = record { holds = resulting Q E (m s) q.holds }

-- What a call that ends without an exception returned.
module _ {A : Type 0} {Q : A → State → Type 0} where
  returned :
      (run : Result A × State)
      → EndsIn Q Never run
      → (a : A) × (t : State) × (run ≡ (ok a, t)) × Q a t
  returned (ok a, t) q = (a, t, refl, q)
  returned (err e, t) q = elim q [ ]

  pub Ends-returns :
      (m : Action A) (s : State)
      → Ends Q Never m s
      → (a : A) × (t : State) × (m s ≡ (ok a, t)) × Q a t
  Ends-returns m s q = returned (m s) q.holds

-- The exception of a call that ends with one.
module _ {A : Type 0} {E : Error → State → Type 0} where
  thrown :
      (run : Result A × State)
      → EndsIn (λ _ _. ⊥) E run
      → (e : Error) × (t : State) × (run ≡ (err e, t)) × E e t
  thrown (ok a, t) q = elim q [ ]
  thrown (err e, t) q = (e, t, refl, q)

  pub Ends-raises :
      (m : Action A) (s : State)
      → Ends (λ _ _. ⊥) E m s
      → (e : Error) × (t : State) × (m s ≡ (err e, t)) × E e t
  Ends-raises m s q = thrown (m s) q.holds

-- What it returned or raised, if that is all that is asked.
outcome :
    {A : Type 0} (o : Result A) (run : Result A × State)
    → EndsIn (λ a _. o ≡ ok a) (λ e _. o ≡ err e) run
    → run.0 ≡ o
outcome o (ok a, t) q = sym q
outcome o (err e, t) q = sym q

pub Ends-outcome :
    {A : Type 0} (m : Action A) (s : State) (o : Result A)
    → Ends (λ a _. o ≡ ok a) (λ e _. o ≡ err e) m s
    → (m s).0 ≡ o
Ends-outcome m s o q = outcome o (m s) q.holds

module _ {A : Type 0} {Q : A → State → Type 0} {H : State → Type 0} where
  caught :
      (handler : Action A) (r : Result A) (t : State)
      → EndsIn Q (NotFound H) (r, t)
      → ((t : State) → H t → Ends Q Never handler t)
      → EndsIn Q Never (
          let run : Result A × State = elim r [
            | ok a ↦ (ok a, t)
            | err e ↦ elim e [ file_not_found ↦ handler t | other ↦ (err other, t) ]
          ] in
          run)
  caught handler (ok a) t q h = q
  caught handler (err file_not_found) t q h = (h t q.1).holds
  caught handler (err _) t q h = cc

  pub Ends-catch :
      (m handler : Action A) (s : State)
      → Ends Q (NotFound H) m s
      → ((t : State) → H t → Ends Q Never handler t)
      → Ends Q Never (catch_file_not_found m handler) s
  unfolding catch_file_not_found
  Ends-catch m handler s q h = record { holds = caught handler (m s).0 (m s).1 q.holds h }

module _ {A B : Type 0} {Q : A → State → Type 0} {R : B → State → Type 0}
    {E : Error → State → Type 0} where
  after :
      (f : A → Action B) (r : Result A) (t : State)
      → EndsIn Q E (r, t)
      → ((a : A) (t : State) → Q a t → Ends R E (f a) t)
      → EndsIn R E
          (let run : Result B × State = elim r [ ok a ↦ f a t | err e ↦ (err e, t) ] in run)
  after f (ok a) t q rest = (rest a t q).holds
  after f (err e) t q rest = q

  pub Ends-bind :
      (m : Action A) (f : A → Action B) (s : State)
      → Ends Q E m s
      → ((a : A) (t : State) → Q a t → Ends R E (f a) t)
      → Ends R E (m >>= f) s
  unfolding ◌>>=◌
  Ends-bind m f s q rest = record { holds = after f (m s).0 (m s).1 q.holds rest }
