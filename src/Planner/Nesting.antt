-- ===== src/Planner/Nesting.antt =====
-- Nested `$or`: the fuel that planning takes.
use mdb_embedded.Prelude.{
  ℕ, zero, suc, ◌≤◌, max, ℤ, ◌≡◌, refl, ap, ◌∙◌, ◌⊎◌, inl, inr, String, str_eq, Bool-cases, Option,
  none, some, Option-cases, List, if◌then◌else◌, arith,
}
use mdb_embedded.Bson.{
  Bson, array, document, Items, nil, cons, Document, end, field, Externals, IsMap,
}
use mdb_embedded.Index.{IndexSpec}
use mdb_embedded.Planner.{QueryPlan, Subplans, no_plan, and_plan}
use mdb_embedded.Planner.Plan.{
  without_or, merge_branch, plan_branches, plan_or_query, plan_query_with_projection,
  plan_query_full, plan_simple_query_with_projection, is_collection_scan, or_branches, union_plan,
}

-- How deep arrays and documents are nested.
mutual
  height : Bson → ℕ
  height (array items) = suc (height_items items)
  height (document d) = suc (height_doc d)
  height _ = 0

  pub height_items : Items → ℕ
  height_items nil = 0
  height_items (cons v rest) = max (height v) (height_items rest)

  height_doc : Document → ℕ
  height_doc end = 0
  height_doc (field k v d) = max (height v) (height_doc d)

abbrev nesting_of : Option Bson → ℕ
nesting_of (some (array branches)) = height_items branches
nesting_of _ = 0

-- How deep the branches of a query's `$or` are nested.
abbrev pub nesting : Externals → Document → ℕ
nesting ext query = nesting_of (ext.get query "$or")

nesting_branches :
    (ext : Externals) (o : Option Bson) (branches : Items)
    → or_branches ext o ≡ some branches
    → nesting_of o ≡ height_items branches
nesting_branches ext (some (array items)) branches e = ground (arith, e)
nesting_branches ext (some _) branches e = absurd (ground (arith, e))
nesting_branches ext none branches e = absurd (ground (arith, e))

mapped :
    {A B : Type 0} (f : A → B) (o : Option A) (a : A)
    → o ≡ some a
    → (b : B) × ((elim o [ none ↦ none | some x ↦ some (f x) ]) ≡ some b)
mapped f o a e = (f a, rw (e) refl)

nesting_le : (v : Bson) (n : ℕ) → height v ≤ n → nesting_of (some v) ≤ n
unfolding height
nesting_le (array branches) n le = omega (arith, le)
nesting_le _ n le = omega arith

module _ (ext : Externals) (m : IsMap ext) where
  get-merge_branch :
      (merged d : Document) (k : String) (v : Bson)
      → ext.get (merge_branch ext merged d) k ≡ some v
      → (height v ≤ height_doc d) ⊎ (ext.get merged k ≡ some v)
  unfolding merge_branch height
  get-merge_branch merged end k v h = inr h
  get-merge_branch merged (field j w d) k v h =
      elim (get-merge_branch (ext.insert merged j w) d k v h) [
        | inl le ↦ inl (omega (arith, le))
        | inr e ↦ elim (Bool-cases (str_eq j k)) [
          | inl p ↦ inl (ground (arith, e, p, m.get-insert merged j k w))
          | inr p ↦ inr (ground (arith, e, p, m.get-insert merged j k w))
        ]
      ]

  get-without_or :
      (base query : Document) → ext.get (without_or ext base query) "$or" ≡ ext.get base "$or"
  unfolding without_or
  get-without_or base end = refl
  get-without_or base (field k v query) = elim (Bool-cases (str_eq k "$or")) [
    | inl p ↦ rw (p) (get-without_or base query)
    | inr p ↦ rw (p) (
        get-without_or (ext.insert base k v) query
        ∙ m.get-insert base k "$or" v
        ∙ ap (λ b. if b then some v else ext.get base "$or") p)
  ]

  nesting-merge_branch :
      (base d : Document)
      → ext.get base "$or" ≡ none
      → nesting ext (merge_branch ext base d) ≤ height_doc d
  unfolding height
  nesting-merge_branch base d e = elim (Option-cases (ext.get (merge_branch ext base d) "$or")) [
    | inl none_there ↦ rw (none_there) (omega arith)
    | inr (v, there) ↦ elim (get-merge_branch base d "$or" v there) [
      | inl le ↦ rw (there) (nesting_le v (height_doc d) le)
      | inr old ↦ absurd (ground (arith, old, e))
    ]
  ]

  -- A planner that gives a plan up to some nesting gives plans for branches nested less deep.
  plan_branches-total :
      (plan : Document → Option QueryPlan) (bound : ℕ)
      → ((q : Document) → suc (nesting ext q) ≤ bound → (p : QueryPlan) × (plan q ≡ some p))
      → (base : Document) → ext.get base "$or" ≡ none
      → (items : Items) → height_items items ≤ bound
      → (r : record { 0 : Option String; 1 : Subplans }) × (plan_branches ext plan base items
          ≡ some r)
  unfolding plan_branches height
  plan_branches-total plan bound total base e nil h = ((none, no_plan), refl)
  plan_branches-total plan bound total base e (cons (document d) rest) h =
      let (sub, planned) =
        total (merge_branch ext base d) (omega (arith, h, nesting-merge_branch base d e)) in
      let (more, planned_more) =
        plan_branches-total plan bound total base e rest (omega (arith, h)) in
      elim (Bool-cases (is_collection_scan ext sub.execution_plan)) [
        | inl p ↦ (
          (some "$or branch falls back to collection scan", no_plan),
          rw (plan_branches, planned, p) refl,
        )
        | inr p ↦ (
          (more.0, and_plan sub.execution_plan more.1),
          rw (plan_branches, planned, p, planned_more) refl,
        )
      ]
  plan_branches-total plan bound total base e (cons _ rest) h =
      ((some "$or requires array of documents", no_plan), refl)

  module _ (geo_plan : Document → IndexSpec → Option QueryPlan) (show : ℕ → String)
      (indexes : List IndexSpec) where
    -- One level of planning, over a planner for the level below.
    step :
        (fuel : ℕ) (k : String) (v : Bson) (d : Document) (projection : Option Document)
        → ((q : Document)
            → suc (nesting ext q) ≤ fuel
            → (p : QueryPlan) × (plan_query_with_projection ext geo_plan show fuel q indexes none
                ≡ some p))
        → nesting ext (field k v d) ≤ fuel
        → (p : QueryPlan) × (plan_query_with_projection ext geo_plan show
              (suc fuel)
              (field k v d)
              indexes
              projection
            ≡ some p)
    unfolding plan_query_with_projection plan_or_query
    step fuel k v d projection total h =
        elim (Option-cases (or_branches ext (ext.get (field k v d) "$or"))) [
          | inl e ↦ (
            plan_simple_query_with_projection ext geo_plan show (field k v d) indexes projection,
            rw (plan_query_with_projection, e) refl,
          )
          | inr (branches, e) ↦
              let (r, planned) =
                plan_branches-total
                  (λ q. plan_query_with_projection ext geo_plan show fuel q indexes none) fuel total
                  (without_or ext end (field k v d))
                  (get-without_or end (field k v d) ∙ m.get-new "$or") branches
                  (omega
                    (arith, h, nesting_branches ext (ext.get (field k v d) "$or") branches e)) in
              (union_plan ext r, rw (plan_query_with_projection, e, plan_or_query, planned) refl)
        ]

    plan_with-total :
        (fuel : ℕ) (query : Document) (projection : Option Document)
        → nesting ext query ≤ fuel
        → (p : QueryPlan) × (plan_query_with_projection ext geo_plan show
              (suc fuel)
              query
              indexes
              projection
            ≡ some p)
    unfolding plan_query_with_projection plan_or_query
    plan_with-total fuel end projection h = (_, refl)
    plan_with-total zero (field k v d) projection h =
        step zero k v d projection (λ q lt. absurd (omega (arith, lt))) h
    plan_with-total (suc fuel) (field k v d) projection h =
        step (suc fuel) k v d projection (λ q lt. plan_with-total fuel q none (omega (arith, lt))) h

    -- Planning a query ends with a plan, `$or` inside the branches of `$or` included: the fuel that
    -- it takes is the depth of the branches and one.
    pub plan_query_full-total :
        (query : Document) (projection sort : Option Document) (limit : Option ℤ)
        → (p : QueryPlan) × (plan_query_full ext geo_plan show
              (suc (nesting ext query))
              query
              indexes
              projection
              sort
              limit
            ≡ some p)
    unfolding plan_query_full
    plan_query_full-total query projection sort limit =
        let (p, e) = plan_with-total (nesting ext query) query projection (omega arith) in
        mapped _ _ p e
