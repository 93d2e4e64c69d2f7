-- ===== src/Memory/Hybrid/Sources.antt =====
-- Where the results of a hybrid search come from.

use secure_openclaw_poc.Common.JsMap
use secure_openclaw_poc.Common.{
  ◌+◌, All, List, Option, Text, [], any, arith, if_elim, length, length-take, map, none, refl, some,
  str_eq, suc, take, true, zero, ℕ, ◌∷◌, ◌≡◌, ◌≤◌, ◌⊎◌, ◌*◌, All-map, Bool, Bool-cases,
  if◌then◌else◌, false, inl, inr, not, subst,
}
use secure_openclaw_poc.Memory.Queries.Results.{take-All, All-any_self, fts_search-Meets}
use secure_openclaw_poc.Memory.Queries.{meets, vector_rows, fts_search}
use secure_openclaw_poc.Memory.Schema.{SearchQuery, fits_query}
use secure_openclaw_poc.Memory.Hybrid.{
  Scored, add_ranks, combine, entry_values, fuse, insert_scored, plus_share, rrf_k, score_leb,
  sort_scored, JsMap, doubled, hybrid_rows, hybrid_search, thrown, returned, Outcome,
}
use secure_openclaw_poc.Memory.Store.{
  Database, Env, Observation, Error, MemoryStore, invalid_query, with_db,
}

module _ (P : Observation → Type 0) where
  abbrev OfEntry : Scored → Type 0
  OfEntry e = P e.obs

  add_ranks-AllValues :
      (i : ℕ) (os : List Observation) (scores : JsMap Scored)
      → All P os
      → JsMap.AllValues OfEntry scores
      → JsMap.AllValues OfEntry (add_ranks i os scores)
  unfolding add_ranks
  add_ranks-AllValues i [] scores h a = a
  add_ranks-AllValues i (o ∷ os) scores h a =
      add_ranks-AllValues (suc i) os
        (JsMap.set o.id (plus_share (rrf_k + i + 1) o (JsMap.get o.id scores)) scores) h.1
        (JsMap.AllValues-set OfEntry o.id (plus_share (rrf_k + i + 1) o (JsMap.get o.id scores))
          scores (shared (JsMap.get o.id scores) refl) a)
    where
      shared :
          (found : Option Scored)
          → JsMap.get o.id scores ≡ found
          → P (plus_share (rrf_k + i + 1) o found).obs
      shared none e = h.0
      shared (some old) e = JsMap.AllValues-get OfEntry o.id scores old a e

  entry_values-All : (m : JsMap Scored) → JsMap.AllValues OfEntry m → All OfEntry (entry_values m)
  entry_values-All [] a = tt
  entry_values-All (e ∷ m) a = (a.0, entry_values-All m a.1)

  insert_scored-All :
      (x : Scored) (xs : List Scored)
      → OfEntry x
      → All OfEntry xs
      → All OfEntry (insert_scored x xs)
  unfolding insert_scored
  insert_scored-All x [] hx h = (hx, tt)
  insert_scored-All x (y ∷ ys) hx h =
      if_elim (All OfEntry) (score_leb y x) (x ∷ y ∷ ys) (y ∷ insert_scored x ys)
        (λ before. (hx, h)) (λ after. (h.0, insert_scored-All x ys hx h.1))

  sort_scored-All : (xs : List Scored) → All OfEntry xs → All OfEntry (sort_scored xs)
  unfolding sort_scored
  sort_scored-All [] h = tt
  sort_scored-All (x ∷ xs) h = insert_scored-All x (sort_scored xs) h.0 (sort_scored-All xs h.1)

  taken-All :
      (n : ℕ) (xs : List Scored)
      → All OfEntry xs
      → All P (map (λ (e : Scored). e.obs) (take n xs))
        × (length (map (λ (e : Scored). e.obs) (take n xs)) ≤ n)
  taken-All zero xs h = (tt, omega arith)
  taken-All (suc n) [] h = (tt, omega arith)
  taken-All (suc n) (x ∷ xs) h =
      let (rest, short) = taken-All n xs h.1 in ((h.0, rest), omega arith)

  fuse-All :
      (limit : ℕ) (fts vec : List Observation)
      → All P fts
      → All P vec
      → All P (fuse limit fts vec) × (length (fuse limit fts vec) ≤ limit)
  unfolding fuse
  fuse-All limit fts vec f v =
      let scores = add_ranks 0 vec (add_ranks 0 fts []) in
      taken-All limit (sort_scored (entry_values scores)) (
        sort_scored-All (entry_values scores) (
          entry_values-All scores
            (add_ranks-AllValues 0 vec (add_ranks 0 fts []) v (add_ranks-AllValues 0 fts [] f tt))))

  cut-All :
      (limit : ℕ) (xs : List Observation)
      → All P xs
      → All P (take limit xs) × (length (take limit xs) ≤ limit)
  cut-All limit xs h = (take-All P limit xs h, omega (arith, length-take limit xs))

  combine-All :
      (limit : ℕ) (fts vec : List Observation)
      → All P fts
      → All P vec
      → All P (combine limit fts vec) × (length (combine limit fts vec) ≤ limit)
  unfolding combine
  combine-All limit [] vec f v = cut-All limit vec v
  combine-All limit (o ∷ os) [] f v = cut-All limit (o ∷ os) f
  combine-All limit (o ∷ os) (p ∷ ps) f v = fuse-All limit (o ∷ os) (p ∷ ps) f v

module _ (env : Env) where
  -- The observation meets the conditions of the query, or is one of those that the vectors gave for
  -- its text.
  abbrev pub IsFound : Database → SearchQuery → Observation → Type 0
  IsFound d q o =
      (meets q o ≡ true)
      ⊎ ((t : Text) × (q.query ≡ some t)
          × (any (λ (p : Observation). str_eq p.id o.id) (vector_rows env d t (q.limit * 2))
              ≡ true))

  vectors-IsFound :
      (d : Database) (q : SearchQuery) (t : Text) (on : Bool)
      → q.query ≡ some t
      → All (IsFound d q) (if on then vector_rows env d t (q.limit * 2) else [])
  vectors-IsFound d q t true e =
      let rows = vector_rows env d t (q.limit * 2) in
      All-map
        (λ (o : Observation) (h : any (λ (p : Observation). str_eq p.id o.id) rows ≡ true).
          inr (t, e, h))
        rows (All-any_self rows)
  vectors-IsFound d q t false e = tt

  hybrid_rows-IsFound :
      (s : MemoryStore) (d : Database) (q : SearchQuery) (o : Option Text)
      → q.query ≡ o
      → All (IsFound d q) (hybrid_rows env s d q o) × (length (hybrid_rows env s d q o) ≤ q.limit)
  unfolding hybrid_rows meets
  hybrid_rows-IsFound s d q none e = combine-All (IsFound d q) q.limit [] [] tt tt
  hybrid_rows-IsFound s d q (some []) e = combine-All (IsFound d q) q.limit [] [] tt tt
  hybrid_rows-IsFound s d q (some (c ∷ cs)) e =
      let fts = fts_search env d (c ∷ cs) (doubled q) in
      combine-All (IsFound d q) q.limit fts
        (if s.vec_enabled then vector_rows env d (c ∷ cs) (q.limit * 2) else [])
        (All-map (λ (o : Observation) (h : meets (doubled q) o ≡ true). inl h) fts
          (fts_search-Meets env d (c ∷ cs) (doubled q)).0)
        (vectors-IsFound d q (c ∷ cs) s.vec_enabled e)

  hybrid_in :
      (s : MemoryStore) (d : Database) (q : SearchQuery) (rows : List Observation)
      → (if not (fits_query q)
          then thrown invalid_query
          else returned (hybrid_rows env s d q q.query))
        ≡ returned rows
      → All (IsFound d q) rows × (length rows ≤ q.limit)
  hybrid_in s d q rows h = elim (Bool-cases (fits_query q)) [
    | inl fits ↦
        let got : ◌≡◌ {A = Outcome Error (List Observation)}
            (returned (hybrid_rows env s d q q.query)) (returned rows) =
          ground (arith, h, fits) in
        let same : hybrid_rows env s d q q.query ≡ rows = cc in
        let found = hybrid_rows-IsFound s d q q.query refl in
        (
          subst (All (IsFound d q)) same found.0,
          subst (λ (xs : List Observation). length xs ≤ q.limit) same found.1,
        )
    | inr unfit ↦ absurd (ground (arith, h, unfit))
  ]

  -- What a hybrid search gives is no more than its limit, and each result meets the conditions of the
  -- query or is one that the vectors gave, which no condition is asked of.
  pub hybrid_search-IsFound :
      (s : MemoryStore) (d : Database) (q : SearchQuery) (rows : List Observation)
      → s.db ≡ some d
      → hybrid_search env s q ≡ returned rows
      → All (IsFound d q) rows × (length rows ≤ q.limit)
  unfolding hybrid_search
  hybrid_search-IsFound s d q rows e h = hybrid_in s d q rows (
      subst
        (λ (o : Option Database).
          with_db o (λ (c : Database).
            if not (fits_query q)
            then thrown invalid_query
            else returned (hybrid_rows env s c q q.query))
          ≡ returned rows)
        e h)
