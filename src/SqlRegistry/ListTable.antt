-- ===== src/SqlRegistry/ListTable.antt =====
-- A table kept as a list of rows: the statements that sdk/python/feast/infra/registry/sql.py asks of the
-- database library can be had, with their laws.
use feast.Base.{
  ◌≡◌, ◌↔◌, refl, sym, ap, subst, ◌∙◌, ℕ, suc, Bool, true, false, not, List, [], ◌∷◌, map, ok, err,
  value_error, arith, inl, inr, ◌⊎◌, if◌then◌else◌, Bool-cases, filter, any, length,
}
use feast.SqlRegistry.Tables.{Table, Laws}

clash : {b : Bool} → b ≡ true → b ≡ false → ⊥
clash yes_it_is no_it_is = cc

pub not-true : (b : Bool) → (not b ≡ true) ↔ (b ≡ false)
not-true true = ((λ h. sym h), λ h. sym h)
not-true false = ((λ h. refl), λ h. refl)

module _ {Row : Type 0} where
  abbrev pub In : Row → List Row → Type 0
  In r [] = ⊥
  In r (s ∷ ss) = (r ≡ s) ⊎ In r ss

  pub filter-nil :
      (p : Row → Bool) (c : List Row) (r : Row) → filter p c ≡ [] → In r c → p r ≡ false
  unfolding filter
  filter-nil p [] r h there = absurd there
  filter-nil p (s ∷ ss) r h (inl here) = elim (Bool-cases (p s)) [
    | inl yes_it_is ↦ ground (arith, yes_it_is)
    | inr other ↦ ap p here ∙ other
  ]
  filter-nil p (s ∷ ss) r h (inr later) = elim (Bool-cases (p s)) [
    | inl yes_it_is ↦ ground (arith, yes_it_is)
    | inr other ↦ filter-nil p ss r (ground (arith, other)) later
  ]

  pub filter-In :
      (p : Row → Bool) (c : List Row) (r : Row) → In r (filter p c) ↔ (In r c × (p r ≡ true))
  unfolding filter
  filter-In p [] r = ((λ there. absurd there), λ there. absurd there.0)
  filter-In p (s ∷ ss) r = elim (Bool-cases (p s)) [
    | inl kept ↦ rw kept (
      (λ there. elim there [
        | inl here ↦ (inl here, ap p here ∙ kept)
        | inr later ↦ let (old, holds) = (filter-In p ss r).0 later in (inr old, holds)
      ]),
      λ there. elim there.0 [
        | inl here ↦ inl here
        | inr later ↦ inr ((filter-In p ss r).1 (later, there.1))
      ],
    )
    | inr dropped ↦ rw dropped (
      (λ there. let (old, holds) = (filter-In p ss r).0 there in (inr old, holds)),
      λ there. elim there.0 [
        | inl here ↦ absurd (clash (sym (ap p here) ∙ there.1) dropped)
        | inr later ↦ (filter-In p ss r).1 (later, there.1)
      ],
    )
  ]

  pub map-In :
      (p : Row → Bool) (f : Row → Row) (c : List Row) (r : Row)
      → In r (map (λ s. if p s then f s else s) c)
        ↔ ((In r c × (p r ≡ false)) ⊎ ((s : Row) × In s c × (p s ≡ true) × (r ≡ f s)))
  map-In p f [] r = (
    (λ there. absurd there),
    λ there. elim there [ inl (old, _) ↦ absurd old | inr (_, new, _, _) ↦ absurd new ],
  )
  map-In p f (s ∷ ss) r = elim (Bool-cases (p s)) [
    | inl hit ↦ rw hit (
      (λ there. elim there [
        | inl new ↦ inr (s, inl refl, hit, new)
        | inr later ↦ further ((map-In p f ss r).0 later)
      ]),
      λ there. elim there [
        | inl (inl here, missed) ↦ absurd (clash (ap p here ∙ hit) missed)
        | inl (inr old, missed) ↦ inr ((map-In p f ss r).1 (inl (old, missed)))
        | inr (t, inl first, held, new) ↦ inl (new ∙ ap f first)
        | inr (t, inr old, held, new) ↦ inr ((map-In p f ss r).1 (inr (t, old, held, new)))
      ],
    )
    | inr miss ↦ rw miss (
      (λ there. elim there [
        | inl here ↦ inl (inl here, ap p here ∙ miss)
        | inr later ↦ further ((map-In p f ss r).0 later)
      ]),
      λ there. elim there [
        | inl (inl here, missed) ↦ inl here
        | inl (inr old, missed) ↦ inr ((map-In p f ss r).1 (inl (old, missed)))
        | inr (t, inl first, held, new) ↦ absurd (clash (sym (ap p first) ∙ held) miss)
        | inr (t, inr old, held, new) ↦ inr ((map-In p f ss r).1 (inr (t, old, held, new)))
      ],
    )
  ]
    where
      further :
          (In r ss × (p r ≡ false)) ⊎ ((t : Row) × In t ss × (p t ≡ true) × (r ≡ f t))
          → (In r (s ∷ ss) × (p r ≡ false)) ⊎ ((t : Row) × In t (s ∷ ss) × (p t ≡ true) × (r ≡ f t))
      further (inl (old, missed)) = inl (inr old, missed)
      further (inr (t, old, held, new)) = inr (t, inr old, held, new)

  pub any-false :
      (p : Row → Bool) (c : List Row) → ((s : Row) → In s c → p s ≡ false) → any p c ≡ false
  unfolding any
  any-false p [] none_holds = refl
  any-false p (s ∷ ss) none_holds =
      rw (none_holds s (inl refl)) (any-false p ss (λ t there. none_holds t (inr there)))

  pub first-of :
      (p : Row → Bool) (c : List Row) (r : Row) (rs : List Row)
      → filter p c ≡ r ∷ rs
      → In r c × (p r ≡ true)
  first-of p c r rs h = (filter-In p c r).0 (subst (In r) (sym h) (inl refl))

  pub filter-empty :
      (p : Row → Bool) (c : List Row) → ((r : Row) → In r c → p r ≡ false) → filter p c ≡ []
  unfolding filter
  filter-empty p [] none_holds = refl
  filter-empty p (s ∷ ss) none_holds =
      rw (none_holds s (inl refl)) (filter-empty p ss (λ t there. none_holds t (inr there)))

  pub length-of : (c : List Row) (r : Row) → In r c → (n : ℕ) × (length c ≡ suc n)
  length-of [] r there = absurd there
  length-of (s ∷ ss) r there = (length ss, refl)

module _ {Row : Type 0} (same : Row → Row → Bool) where
  abbrev pub list_table : Table Row
  list_table = record {
    Contents = List Row;
    select = filter;
    update = λ p f c. map (λ s. if p s then f s else s) c;
    insert = λ r c.
        if any (λ s. same s r) c then err (value_error "UNIQUE constraint failed") else ok (r ∷ c);
    delete = λ p c. (length (filter p c), filter (λ s. not (p s)) c);
  }

  abbrev pub list_laws : Laws same list_table
  list_laws = record {
    Has = λ c r. In r c;
    select_none = λ p c r. filter-nil p c r;
    select_first = λ p c r rs. first-of p c r rs;
    update_rows = map-In;
    insert_new = λ r c absent. (
      r ∷ c,
      ap (λ b. if b then err (value_error "UNIQUE constraint failed") else ok (r ∷ c))
          (any-false (λ s. same s r) c absent),
      λ s. (
        (λ there. elim there [ inl here ↦ inr here | inr old ↦ inl old ]),
        λ there. elim there [ inl old ↦ inr old | inr here ↦ inl here ],
      ),
    );
    delete_rows = λ p c r. (
      (λ there.
          let (old, other) = (filter-In (λ s. not (p s)) c r).0 there in
          (old, (not-true (p r)).0 other)),
      λ there. (filter-In (λ s. not (p s)) c r).1 (there.0, (not-true (p r)).1 there.1),
    );
    delete_none = λ p c absent. ap length (filter-empty p c absent);
    delete_some =
        λ p c r there holds. length-of (filter p c) r ((filter-In p c r).1 (there, holds));
  }
