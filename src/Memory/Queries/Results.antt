-- ===== src/Memory/Queries/Results.antt =====
-- What a search gives.

use secure_openclaw_poc.Common.{
  All, All-drop, All-filter, List, Option, Text, [], arith, drop, filter, if_elim, length,
  length-take, none, some, suc, take, true, zero, ℕ, ◌∷◌, ◌≡◌, ◌≤◌, Bool-cases, if◌then◌else◌, inl,
  inr, not, subst, any, eq_refl, str_eq,
}
use secure_openclaw_poc.Memory.Dates.{text_leb}
use secure_openclaw_poc.Memory.Queries.{
  filter_search, fts_search, insert_desc, join_ids, meets, order_desc, page, search_text, search,
  thrown, returned, Outcome,
}
use secure_openclaw_poc.Memory.Schema.{SearchQuery, fits_query}
use secure_openclaw_poc.Memory.Store.{
  Database, Env, Observation, Error, MemoryStore, invalid_query, with_db,
}

module _ {A : Type 0} (P : A → Type 0) where
  pub take-All : (n : ℕ) (xs : List A) → All P xs → All P (take n xs)
  take-All zero xs h = tt
  take-All (suc n) [] h = tt
  take-All (suc n) (x ∷ xs) h = (h.0, take-All n xs h.1)

  insert_desc-All :
      (key : A → Text) (x : A) (xs : List A) → P x → All P xs → All P (insert_desc key x xs)
  unfolding insert_desc
  insert_desc-All key x [] hx h = (hx, tt)
  insert_desc-All key x (y ∷ ys) hx h =
      if_elim (All P) (text_leb (key y) (key x)) (x ∷ y ∷ ys) (y ∷ insert_desc key x ys)
        (λ before. (hx, h)) (λ after. (h.0, insert_desc-All key x ys hx h.1))

  order_desc-All : (key : A → Text) (xs : List A) → All P xs → All P (order_desc key xs)
  unfolding order_desc
  order_desc-All key [] h = tt
  order_desc-All key (x ∷ xs) h =
      insert_desc-All key x (order_desc key xs) h.0 (order_desc-All key xs h.1)

-- Each row is among the rows.
pub All-any_later :
    (x : Observation) (pre xs : List Observation)
    → All (λ (o : Observation). any (λ (p : Observation). str_eq p.id o.id) pre ≡ true) xs
    → All (λ (o : Observation). any (λ (p : Observation). str_eq p.id o.id) (x ∷ pre) ≡ true) xs
All-any_later x pre [] h = tt
All-any_later x pre (y ∷ ys) h = (ground (arith, h.0), All-any_later x pre ys h.1)

pub All-any_self :
    (xs : List Observation)
    → All (λ (o : Observation). any (λ (p : Observation). str_eq p.id o.id) xs ≡ true) xs
All-any_self [] = tt
All-any_self (x ∷ xs) = (ground (arith, eq_refl x.id), All-any_later x xs xs (All-any_self xs))

abbrev pub Meets : SearchQuery → Observation → Type 0
Meets q o = meets q o ≡ true

page-length : {A : Type 0} (q : SearchQuery) (xs : List A) → length (page q xs) ≤ q.limit
page-length q xs = omega (arith, length-take q.limit (drop q.offset xs))

filter_search-Meets :
    (d : Database) (q : SearchQuery)
    → All (Meets q) (filter_search d q) × (length (filter_search d q) ≤ q.limit)
unfolding filter_search
filter_search-Meets d q =
    let rows = order_desc (λ (o : Observation). o.created_at) (filter (meets q) d.observations) in
    (
      take-All (Meets q) q.limit (drop q.offset rows) (
          All-drop (Meets q) q.offset rows (
            order_desc-All (Meets q) (λ (o : Observation). o.created_at)
              (filter (meets q) d.observations)
              (All-filter (Meets q) (meets q) d.observations (λ o h. h)))),
      page-length q rows,
    )

module _ (env : Env) where
  pub fts_search-Meets :
      (d : Database) (text : Text) (q : SearchQuery)
      → All (Meets q) (fts_search env d text q) × (length (fts_search env d text q) ≤ q.limit)
  unfolding fts_search
  fts_search-Meets d text q =
      let rows = join_ids d.observations (env.fts_rank text d.fts) in
      (
        take-All (Meets q) q.limit (drop q.offset (filter (meets q) rows)) (
            All-drop (Meets q) q.offset (filter (meets q) rows)
              (All-filter (Meets q) (meets q) rows (λ o h. h))),
        page-length q (filter (meets q) rows),
      )

  search_text-Meets :
      (d : Database) (q : SearchQuery) (o : Option Text)
      → All (Meets q) (search_text env d q o) × (length (search_text env d q o) ≤ q.limit)
  unfolding search_text
  search_text-Meets d q none = filter_search-Meets d q
  search_text-Meets d q (some []) = filter_search-Meets d q
  search_text-Meets d q (some (c ∷ cs)) = fts_search-Meets d (c ∷ cs) q

  search_in :
      (o : Option Database) (q : SearchQuery) (rows : List Observation)
      → with_db o (λ (d : Database).
        if not (fits_query q) then thrown invalid_query else returned (search_text env d q q.query))
        ≡ returned rows
      → All (Meets q) rows × (length rows ≤ q.limit) × (q.limit ≤ 100)
  unfolding fits_query
  search_in none q rows h = cc
  search_in (some d) q rows h = elim (Bool-cases (fits_query q)) [
    | inl fits ↦
        let got : ◌≡◌ {A = Outcome Error (List Observation)}
            (returned (search_text env d q q.query)) (returned rows) =
          ground (arith, h, fits) in
        let same : search_text env d q q.query ≡ rows = cc in
        let found = search_text-Meets d q q.query in
        (
          subst (All (Meets q)) same found.0,
          subst (λ (xs : List Observation). length xs ≤ q.limit) same found.1,
          ground (arith, fits),
        )
    | inr unfit ↦ absurd (ground (arith, h, unfit))
  ]

  -- What a search gives meets every condition of the query, and is no more than its limit, which is
  -- at most a hundred.
  pub search-Meets :
      (s : MemoryStore) (q : SearchQuery) (rows : List Observation)
      → search env s q ≡ returned rows
      → All (Meets q) rows × (length rows ≤ q.limit) × (q.limit ≤ 100)
  unfolding search
  search-Meets s q rows h = search_in s.db q rows h
