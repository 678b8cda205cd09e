-- ===== src/Planner/Choice.antt =====
-- The plan chosen for a query without `$or`.
use mdb_embedded.Prelude.{
  ℕ, suc, ◌≤◌, ltb, ◌≡◌, refl, sym, ap, ◌∙◌, ◌⊎◌, inl, inr, String, Bool-cases, Option, none, some,
  Option-cases, List, [], ◌∷◌, arith,
}
use mdb_embedded.Bson.{Bson, Document, field, Externals}
use mdb_embedded.Index.{IndexSpec}
use mdb_embedded.Planner.{QueryPlan, scan_plan}
use mdb_embedded.Planner.Candidates.{candidate}
use mdb_embedded.Planner.Plan.{
  pick_better, best_of, or_branches, plan_query_with_projection, plan_simple_query_with_projection,
}

module _ (ext : Externals) (geo_plan : Document → IndexSpec → Option QueryPlan) (show : ℕ → String)
    (query : Document) (projection : Option Document) where
  -- No index offers a cheaper plan.
  abbrev pub IsCheapest : QueryPlan → List IndexSpec → Type 0
  IsCheapest plan [] = Unit
  IsCheapest plan (spec ∷ indexes) =
      ((c : QueryPlan)
        → candidate ext geo_plan show query projection spec ≡ some c
        → plan.estimated_cost ≤ c.estimated_cost)
      × IsCheapest plan indexes

  -- One of the indexes offers the plan.
  abbrev pub IsOffered : QueryPlan → List IndexSpec → Type 0
  IsOffered plan [] = ⊥
  IsOffered plan (spec ∷ indexes) =
      (candidate ext geo_plan show query projection spec ≡ some plan) ⊎ IsOffered plan indexes

  abbrev pub NoneOffered : List IndexSpec → Type 0
  NoneOffered [] = Unit
  NoneOffered (spec ∷ indexes) =
      (candidate ext geo_plan show query projection spec ≡ none) × NoneOffered indexes

  -- What the loop ends with, from the best plan so far.
  abbrev Ends : Option QueryPlan → List IndexSpec → Option QueryPlan → Type 0
  Ends none indexes none = NoneOffered indexes
  Ends none indexes (some plan) = IsOffered plan indexes × IsCheapest plan indexes
  Ends (some prev) indexes none = ⊥
  Ends (some prev) indexes (some plan) =
      ((plan ≡ prev) ⊎ IsOffered plan indexes)
      × (plan.estimated_cost ≤ prev.estimated_cost)
      × IsCheapest plan indexes

  skip :
      (best_plan : Option QueryPlan) (spec : IndexSpec) (indexes : List IndexSpec)
      (result : Option QueryPlan)
      → candidate ext geo_plan show query projection spec ≡ none
      → Ends best_plan indexes result
      → Ends best_plan (spec ∷ indexes) result
  skip none spec indexes none e h = (e, h)
  skip none spec indexes (some plan) e h = (inr h.0, (λ c f. absurd (ground (arith, e, f)), h.1))
  skip (some prev) spec indexes none e h = h
  skip (some prev) spec indexes (some plan) e (from, le, cheapest) =
      (or_later spec indexes from, le, (λ c f. absurd (ground (arith, e, f)), cheapest))
    where
      or_later :
          {plan prev : QueryPlan} (spec : IndexSpec) (indexes : List IndexSpec)
          → (plan ≡ prev) ⊎ IsOffered plan indexes
          → (plan ≡ prev) ⊎ IsOffered plan (spec ∷ indexes)
      or_later spec indexes (inl e) = inl e
      or_later spec indexes (inr o) = inr (inr o)

  -- The cheaper of two is one of them, and as cheap as each.
  pick_better-cases :
      (prev c : QueryPlan)
      → ((pick_better (some prev) c ≡ prev) ⊎ (pick_better (some prev) c ≡ c))
        × ((pick_better (some prev) c).estimated_cost ≤ prev.estimated_cost)
        × ((pick_better (some prev) c).estimated_cost ≤ c.estimated_cost)
  unfolding pick_better
  pick_better-cases prev c = elim (Bool-cases (ltb c.estimated_cost prev.estimated_cost)) [
    | inl p ↦ rw (p) (inr refl, ground (arith, p), omega arith)
    | inr p ↦ rw (p) (inl refl, omega arith, ground (arith, p))
  ]

  at_most :
      (spec : IndexSpec) (c d plan : QueryPlan)
      → candidate ext geo_plan show query projection spec ≡ some c
      → candidate ext geo_plan show query projection spec ≡ some d
      → plan.estimated_cost ≤ c.estimated_cost
      → plan.estimated_cost ≤ d.estimated_cost
  at_most spec c d plan e f le = ground (arith, e, f, le)

  offer :
      (spec : IndexSpec) (indexes : List IndexSpec) (c plan : QueryPlan)
      → candidate ext geo_plan show query projection spec ≡ some c
      → (plan ≡ c) ⊎ IsOffered plan indexes
      → (candidate ext geo_plan show query projection spec ≡ some plan) ⊎ IsOffered plan indexes
  offer spec indexes c plan e (inl p) = inl (e ∙ ap some (sym p))
  offer spec indexes c plan e (inr o) = inr o

  offer_either :
      (spec : IndexSpec) (indexes : List IndexSpec) (c prev plan : QueryPlan)
      → candidate ext geo_plan show query projection spec ≡ some c
      → (pick_better (some prev) c ≡ prev) ⊎ (pick_better (some prev) c ≡ c)
      → (plan ≡ pick_better (some prev) c) ⊎ IsOffered plan indexes
      → (plan ≡ prev) ⊎ IsOffered plan (spec ∷ indexes)
  offer_either spec indexes c prev plan e (inl p) (inl q) = inl (q ∙ p)
  offer_either spec indexes c prev plan e (inr p) (inl q) = inr (inl (e ∙ ap some (sym (q ∙ p))))
  offer_either spec indexes c prev plan e which (inr o) = inr (inr o)

  take_up :
      (best_plan : Option QueryPlan) (spec : IndexSpec) (indexes : List IndexSpec) (c : QueryPlan)
      (result : Option QueryPlan)
      → candidate ext geo_plan show query projection spec ≡ some c
      → Ends (some (pick_better best_plan c)) indexes result
      → Ends best_plan (spec ∷ indexes) result
  unfolding pick_better
  take_up best_plan spec indexes c none e h = absurd h
  take_up none spec indexes c (some plan) e (from, le, cheapest) =
      (offer spec indexes c plan e from, (λ d f. at_most spec c d plan e f le, cheapest))
  take_up (some prev) spec indexes c (some plan) e (from, le, cheapest) =
      let (which, le_prev, le_c) = pick_better-cases prev c in
      (
        offer_either spec indexes c prev plan e which from,
        omega (arith, le, le_prev),
        (λ d f. at_most spec c d plan e f (omega (arith, le, le_c)), cheapest),
      )

  best_of-Ends :
      (best_plan : Option QueryPlan) (indexes : List IndexSpec)
      → Ends best_plan indexes (best_of ext geo_plan show query projection best_plan indexes)
  unfolding best_of
  best_of-Ends none [] = tt
  best_of-Ends (some prev) [] = (inl refl, omega arith, tt)
  best_of-Ends best_plan (spec ∷ indexes) =
      elim (Option-cases (candidate ext geo_plan show query projection spec)) [
        | inl e ↦ rw (e) (
            skip best_plan spec indexes
              (best_of ext geo_plan show query projection best_plan indexes) e
              (best_of-Ends best_plan indexes))
        | inr (c, e) ↦ rw (e) (
            take_up best_plan spec indexes c
              (best_of ext geo_plan show query projection (some (pick_better best_plan c)) indexes)
              e (best_of-Ends (some (pick_better best_plan c)) indexes))
      ]

  abbrev plan_or_scan : Option QueryPlan → QueryPlan
  plan_or_scan none = scan_plan "No suitable index found"
  plan_or_scan (some plan) = plan

  -- A plan that an index offers and none offers cheaper, or the scan where none is offered.
  abbrev pub Chosen : QueryPlan → List IndexSpec → Type 0
  Chosen plan indexes =
      (NoneOffered indexes × (plan ≡ scan_plan "No suitable index found"))
      ⊎ (IsOffered plan indexes × IsCheapest plan indexes)

  chosen :
      (indexes : List IndexSpec) (result : Option QueryPlan)
      → Ends none indexes result
      → Chosen (plan_or_scan result) indexes
  chosen indexes none h = inl (h, refl)
  chosen indexes (some plan) h = inr h

  -- The plan for a query without `$or` by one index, or by none.
  plan_simple-IsCheapest :
      (indexes : List IndexSpec)
      → Chosen
          (plan_simple_query_with_projection ext geo_plan show query indexes projection)
          indexes
  unfolding plan_simple_query_with_projection
  plan_simple-IsCheapest indexes =
      chosen indexes (best_of ext geo_plan show query projection none indexes)
        (best_of-Ends none indexes)

module _ (ext : Externals) (geo_plan : Document → IndexSpec → Option QueryPlan)
    (show : ℕ → String) where
  -- A query that has a condition, and no array under `$or`, is planned at any depth. Its plan is one
  -- that an index offers, and no index offers a cheaper one; where no index offers a plan, it is the
  -- scan of the collection.
  pub plan_query-IsCheapest :
      (fuel : ℕ) (k : String) (v : Bson) (d : Document) (projection : Option Document)
      (indexes : List IndexSpec)
      → or_branches ext (ext.get (field k v d) "$or") ≡ none
      → (plan : QueryPlan) × (plan_query_with_projection ext geo_plan show
            (suc fuel)
            (field k v d)
            indexes
            projection
          ≡ some plan)
        × Chosen ext geo_plan show (field k v d) projection plan indexes
  unfolding plan_query_with_projection
  plan_query-IsCheapest fuel k v d projection indexes no_or = (
    plan_simple_query_with_projection ext geo_plan show (field k v d) indexes projection,
    rw (plan_query_with_projection, no_or) refl,
    plan_simple-IsCheapest ext geo_plan show (field k v d) projection indexes,
  )
