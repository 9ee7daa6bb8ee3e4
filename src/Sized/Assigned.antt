-- ===== src/Sized/Assigned.antt =====
-- The places that SizeClassedTable::create of include/sub0tieredcache/size_classed_table.hpp gives
-- the rows.
use sub0tiered_cache.Base.{
  ℕ, zero, suc, ◌+◌, ◌<◌, ◌≡◌, ◌≢◌, refl, ap, subst, ◌∙◌, arith, some, List, [], ◌∷◌, ◌++◌, length,
  get_elem?, update, update_self, update_ne, ℕ_discrete, ltb, leb, ◌==◌, ◌||◌, ◌-◌, ◌^◌, Bool-cases,
  Option-cases, inl, inr, ◌⊎◌,
}
use sub0tiered_cache.Status.{Status}
use sub0tiered_cache.RowCache.Config.{Result, value, unexpected, RowExtentResolver, Transport}
use sub0tiered_cache.Sized.{
  SizeClassedTableConfig, SizeClassedTable, Places, rank, discover, place_row, place_rows,
  make_classes, used_bytes,
}
use sub0tiered_cache.Sized.Calls.{places_of, create_tables, create_classes, create}

module _ (row : ℕ) where
  append_old :
      (xs : List ℕ) (l r : ℕ) → get_elem? xs l ≡ some r → get_elem? (xs ++ row ∷ []) l ≡ some r
  append_old [] l r e = absurd (cc e)
  append_old (x ∷ xs) zero r e = e
  append_old (x ∷ xs) (suc l) r e = append_old xs l r e

  append_last : (xs : List ℕ) → get_elem? (xs ++ row ∷ []) (length xs) ≡ some row
  append_last [] = refl
  append_last (x ∷ xs) = append_last xs

  append_cases :
      (xs : List ℕ) (l r : ℕ)
      → get_elem? (xs ++ row ∷ []) l ≡ some r
      → (get_elem? xs l ≡ some r) ⊎ (l ≡ length xs) × (r ≡ row)
  append_cases [] zero r e = inr (refl, cc e)
  append_cases [] (suc l) r e = absurd (cc e)
  append_cases (x ∷ xs) zero r e = inl e
  append_cases (x ∷ xs) (suc l) r e = elim (append_cases xs l r e) [
    | inl f ↦ inl f
    | inr f ↦ inr (ap suc f.0, f.1)
  ]

-- The first `n` rows are placed: each stands at its place, and at each place stands one of them
-- that has that place.
pub record ArePlaced (n : ℕ) (p : Places) : Type 0 where
  pub found :
      (row : ℕ) → row < n → get_elem? (p.global_of (p.class_of row)) (p.local_of row) ≡ some row
  pub back :
      (c l row : ℕ)
      → get_elem? (p.global_of c) l ≡ some row
      → (row < n) × (p.class_of row ≡ c) × (p.local_of row ≡ l)

module _ (p : Places) (n c : ℕ) (v : ArePlaced n p) where
  abbrev behind : ℕ → List ℕ
  behind = update p.global_of c (p.global_of c ++ n ∷ [])

  found_behind :
      (row : ℕ)
      → row < n + 1
      → get_elem?
          (behind (update p.class_of n c row))
          (update p.local_of n (length (p.global_of c)) row)
        ≡ some row
  found_behind row h = elim (ℕ_discrete row n) [
    | yes e ↦
        rw
          (
            e,
            update_self p.class_of n c,
            update_self p.local_of n (length (p.global_of c)),
            update_self p.global_of c (p.global_of c ++ n ∷ []),
          )
          (append_last n (p.global_of c))
    | no ne ↦
        let old = v.found row (omega (arith, h, ne)) in
        rw (update_ne p.class_of n c row ne, update_ne p.local_of n (length (p.global_of c)) row ne)
          (elim (ℕ_discrete (p.class_of row) c) [
            | yes e ↦
                let here =
                  subst (λ (d : ℕ). get_elem? (p.global_of d) (p.local_of row) ≡ some row) e old in
                rw (e, update_self p.global_of c (p.global_of c ++ n ∷ []))
                  (append_old n (p.global_of c) (p.local_of row) row here)
            | no other ↦
                rw (update_ne p.global_of c (p.global_of c ++ n ∷ []) (p.class_of row) other) old
          ])
  ]

  back_old :
      (d l row : ℕ)
      → get_elem? (p.global_of d) l ≡ some row
      → (row < n + 1)
        × (update p.class_of n c row ≡ d)
        × (update p.local_of n (length (p.global_of c)) row ≡ l)
  back_old d l row e =
      let (h, a, b) = v.back d l row e in
      let ne : row ≢ n = λ same. omega (arith, h, same) in
      (
        omega (arith, h),
        update_ne p.class_of n c row ne ∙ a,
        update_ne p.local_of n (length (p.global_of c)) row ne ∙ b,
      )

  back_behind :
      (d l row : ℕ)
      → get_elem? (behind d) l ≡ some row
      → (row < n + 1)
        × (update p.class_of n c row ≡ d)
        × (update p.local_of n (length (p.global_of c)) row ≡ l)
  back_behind d l row = elim (ℕ_discrete d c) [
    | no other ↦ rw (update_ne p.global_of c (p.global_of c ++ n ∷ []) d other) (back_old d l row)
    | yes e ↦
        rw (e, update_self p.global_of c (p.global_of c ++ n ∷ []))
          (λ f. elim (append_cases n (p.global_of c) l row f) [
            | inl old ↦ back_old c l row old
            | inr new ↦
                rw
                  (
                    new.1,
                    new.0,
                    update_self p.class_of n c,
                    update_self p.local_of n (length (p.global_of c)),
                  )
                  (omega arith, refl, refl)
          ])
  ]

module _ (rank : ℕ → ℕ) where
  place_row-ArePlaced :
      (n : ℕ) (p : Places) → ArePlaced n p → ArePlaced (n + 1) (place_row rank p n)
  unfolding place_row
  place_row-ArePlaced n p v = record {
    found = found_behind p n (rank (p.class_of n)) v;
    back = back_behind p n (rank (p.class_of n)) v;
  }

  -- After the loop over the rows, the row that a class has at a local index is the one whose place
  -- that is: each row stands at its place in the list of its class, and whatever stands at a
  -- place of a class is a row of the table that has that class and that local index.
  pub place_rows-ArePlaced :
      (left n : ℕ) (p : Places) → ArePlaced n p → ArePlaced (n + left) (place_rows rank left n p)
  unfolding place_rows
  place_rows-ArePlaced zero n p v = subst (λ (k : ℕ). ArePlaced k p) {x = n} (omega arith) v
  place_rows-ArePlaced (suc left) n p v =
      subst (λ (k : ℕ). ArePlaced k (place_rows rank left (n + 1) (place_row rank p n)))
        {x = n + 1 + left} (omega arith)
        (place_rows-ArePlaced left (n + 1) (place_row rank p n) (place_row-ArePlaced n p v))

Result-cases :
    {A : Type 0} (r : Result A) → ((e : Status) × (r ≡ unexpected e)) ⊎ ((a : A) × (r ≡ value a))
Result-cases (unexpected e) = inl (e, refl)
Result-cases (value a) = inr (a, refl)

module _ (tr : Transport) (config : SizeClassedTableConfig) (share : ℕ → ℕ)
    (t : SizeClassedTable) where
  places_of-ArePlaced :
      (found : List ℕ × (ℕ → ℕ)) → ArePlaced config.row_count (places_of config found)
  places_of-ArePlaced found =
      subst (λ (n : ℕ). ArePlaced n (places_of config found)) {x = 0 + config.row_count}
        (omega arith)
        (place_rows-ArePlaced (rank found.0) config.row_count 0
          (record { class_of = found.1; local_of = λ row. 0; global_of = λ c. [] })
          (record {
            found = λ row h. absurd (omega (arith, h));
            back = λ c l row e. absurd (cc e);
          }))

  create_classes-ArePlaced :
      (resolve : RowExtentResolver) (found : List ℕ × (ℕ → ℕ))
      → create_classes tr config resolve share found ≡ value t
      → ArePlaced config.row_count t.places
  unfolding create_classes
  create_classes-ArePlaced resolve found =
      let places = places_of config found in
      elim (Option-cases (make_classes config found.0 places share (length found.0) 0)) [
        | inl e ↦ rw (create_classes, e) (λ h. absurd (cc h))
        | inr e ↦ elim (Bool-cases (ltb config.output_storage.size (used_bytes e.0))) [
          | inl f ↦ rw (create_classes, e.1, f) (λ h. absurd (cc h))
          | inr f ↦ elim (Result-cases (create_tables tr config resolve places.global_of 0 0 e.0)) [
            | inl g ↦ rw (create_classes, e.1, f, g.1) (λ h. absurd (cc h))
            | inr g ↦
                rw (create_classes, e.1, f, g.1)
                  (λ h.
                    subst (λ (x : SizeClassedTable). ArePlaced config.row_count x.places)
                      {x = record { config = config; classes = e.0; places = places; tables = g.0 }}
                      {y = t} (cc h) (places_of-ArePlaced found))
          ]
        ]
      ]

  -- In a table that `create` returns, each row stands at its local index in the list of its class,
  -- and whatever stands at an index of a class is a row of the table with that class and that
  -- index, so that the resolver of a class asks for the extent of the row that a call meant.
  pub create-ArePlaced : create tr config share ≡ value t → ArePlaced config.row_count t.places
  unfolding create
  create-ArePlaced = elim (Option-cases config.resolve_extent) [
    | inl e ↦ rw (create, e) (λ h. absurd (cc h))
    | inr e ↦
        elim (Bool-cases (
          config.row_count == 0
          || leb (2 ^ 32 - 1) config.row_count
          || config.max_batch_rows == 0
          || config.max_classes == 0)) [
            | inl f ↦ rw (create, e.1, f) (λ h. absurd (cc h))
            | inr f ↦
                elim (Result-cases
                  (discover (e.0) config.max_classes config.row_count 0 [] (λ row. 0))) [
                    | inl g ↦ rw (create, e.1, f, g.1) (λ h. absurd (cc h))
                    | inr g ↦ rw (create, e.1, f, g.1) (create_classes-ArePlaced e.0 g.0)
                  ]
          ]
  ]
