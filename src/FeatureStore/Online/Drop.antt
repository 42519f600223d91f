-- ===== src/FeatureStore/Online/Drop.antt =====
-- `_drop_unneeded_columns` of sdk/python/feast/feature_store.py deletes by index from the end; it keeps the
-- columns whose names are requested.
use feast.Base.{
  ℕ, suc, ◌≡◌, refl, sym, ap, ◌∙◌, String, List, [], ◌∷◌, ◌++◌, map, Result, ok, err, ◌>>=◌,
  >>=-assoc, >>=-ap, length, arith, Bool-cases, inl, inr, if◌then◌else◌,
}
use mathlib.Core.List.{reverse, map-append, reverse-cons}
use feast.FeatureView.{contains}
use feast.FeatureStore.Entities.{enumerate_from}
use feast.FeatureStore.Online.{
  FeatureVector, Response, delete_at, unneeded, delete_column, delete_columns,
  drop_unneeded_columns,
}

reverse-map : (f : ℕ → ℕ) (is : List ℕ) → reverse (map f is) ≡ map f (reverse is)
reverse-map f [] = refl
reverse-map f (i ∷ is) =
    reverse-cons (f i) (map f is)
    ∙ ap (λ js. js ++ f i ∷ []) (reverse-map f is)
    ∙ sym (map-append f (reverse is) (i ∷ []))
    ∙ ap (map f) (sym (reverse-cons i is))

unneeded-suc :
    (requested : List String) (k : ℕ) (ns : List String)
    → unneeded requested (enumerate_from (suc k) ns)
      ≡ map suc (unneeded requested (enumerate_from k ns))
unfolding unneeded enumerate_from
unneeded-suc requested k [] = refl
unneeded-suc requested k (n ∷ ns) = elim (Bool-cases (contains requested n)) [
  | inl there ↦ rw there (unneeded-suc requested (suc k) ns)
  | inr missing ↦ rw missing (ap (◌∷◌ (suc k)) (unneeded-suc requested (suc k) ns))
]

module _ {V : Type 0} where
  -- A column put before the others moves their indexes.
  cons_column : String → FeatureVector V → Response V → Response V
  cons_column n r response = record {
    feature_names = n ∷ response.feature_names;
    results = r ∷ response.results;
  }

  delete_columns-append :
      (is js : List ℕ) (response : Response V)
      → delete_columns (is ++ js) response ≡ (delete_columns is response >>= delete_columns js)
  unfolding delete_columns
  delete_columns-append [] js response = refl
  delete_columns-append (i ∷ is) js response =
      >>=-ap (delete_column response i) _ _ (λ q. delete_columns-append is js q)
      ∙ sym (>>=-assoc (delete_column response i) (delete_columns is) (delete_columns js))

  delete_column-suc :
      (i : ℕ) (n : String) (r : FeatureVector V) (response : Response V)
      → delete_column (cons_column n r response) (suc i)
        ≡ (delete_column response i >>= λ q. ok (cons_column n r q))
  unfolding delete_column cons_column delete_at
  delete_column-suc i n r response =
      go (delete_at response.feature_names i) (delete_at response.results i)
    where
      built : List String → List (FeatureVector V) → Result (Response V)
      built ns rs = ok (record { feature_names = ns; results = rs })

      put : Response V → Result (Response V)
      put q = ok (cons_column n r q)

      go :
          (names : Result (List String)) (results : Result (List (FeatureVector V)))
          → ((names >>= λ ns. ok (n ∷ ns)) >>= λ ns.
              (results >>= λ rs. ok (r ∷ rs)) >>= λ rs. built ns rs)
            ≡ ((names >>= λ ns. results >>= λ rs. built ns rs) >>= put)
      go (err e) results = refl
      go (ok ns) (err e) = refl
      go (ok ns) (ok rs) = refl

  delete_columns-suc :
      (is : List ℕ) (n : String) (r : FeatureVector V) (response : Response V)
      → delete_columns (map suc is) (cons_column n r response)
        ≡ (delete_columns is response >>= λ q. ok (cons_column n r q))
  unfolding delete_columns
  delete_columns-suc [] n r response = refl
  delete_columns-suc (i ∷ is) n r response =
      ap (λ m. m >>= delete_columns (map suc is)) (delete_column-suc i n r response)
      ∙ >>=-assoc (delete_column response i) (λ q. ok (cons_column n r q)) _
      ∙ >>=-ap (delete_column response i) _ _ (λ q. delete_columns-suc is n r q)
      ∙ sym (>>=-assoc (delete_column response i) (delete_columns is) _)

module _ {V : Type 0} (requested : List String) where
  -- The columns whose names are requested, in order.
  abbrev pub kept_columns : List String → List (FeatureVector V) → Response V
  kept_columns (n ∷ ns) (r ∷ rs) =
      let rest = kept_columns ns rs in
      if contains requested n
      then record { feature_names = n ∷ rest.feature_names; results = r ∷ rest.results }
      else rest
  kept_columns ns rs = record { feature_names = []; results = [] }

  kept :
      (ns : List String) (rs : List (FeatureVector V))
      → length ns ≡ length rs
      → delete_columns
          (reverse (unneeded requested (enumerate_from 0 ns)))
          (record { feature_names = ns; results = rs })
        ≡ ok (kept_columns ns rs)
  unfolding enumerate_from unneeded delete_columns delete_column delete_at cons_column
  kept [] [] h = refl
  kept [] (r ∷ rs) h = absurd (omega (arith, h))
  kept (n ∷ ns) [] h = absurd (omega (arith, h))
  kept (n ∷ ns) (r ∷ rs) h = elim (Bool-cases (contains requested n)) [
    | inl there ↦ rw there (
        ap (λ is. delete_columns (reverse is) whole) (unneeded-suc requested 0 ns)
        ∙ shifted (kept ns rs (omega (arith, h))))
    | inr missing ↦ rw missing (
        ap (λ is. delete_columns (reverse (0 ∷ is)) whole) (unneeded-suc requested 0 ns)
        ∙ ap (λ is. delete_columns is whole) (reverse-cons 0 (map suc later))
        ∙ delete_columns-append (reverse (map suc later)) (0 ∷ []) whole
        ∙ ap (λ m. m >>= delete_columns (0 ∷ [])) (shifted (kept ns rs (omega (arith, h)))))
  ]
    where
      later : List ℕ
      later = unneeded requested (enumerate_from 0 ns)

      whole : Response V
      whole = cons_column n r (record { feature_names = ns; results = rs })

      shifted :
          delete_columns (reverse later) (record { feature_names = ns; results = rs })
            ≡ ok (kept_columns ns rs)
          → delete_columns (reverse (map suc later)) whole
            ≡ ok (cons_column n r (kept_columns ns rs))
      shifted rest =
          ap (λ is. delete_columns is whole) (reverse-map suc later)
          ∙ delete_columns-suc (reverse later) n r _
          ∙ ap (λ m. m >>= λ q. ok (cons_column n r q)) rest

  -- Where a response has as many columns as names, the deletion of the columns that are not requested, by
  -- index from the last to the first, returns, and leaves the columns whose names are requested, each under
  -- its name and in order.
  pub drop_unneeded_columns-kept_columns :
      (response : Response V)
      → length response.feature_names ≡ length response.results
      → drop_unneeded_columns response requested
        ≡ ok (kept_columns response.feature_names response.results)
  unfolding drop_unneeded_columns
  drop_unneeded_columns-kept_columns response h = kept response.feature_names response.results h
