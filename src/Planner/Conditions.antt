-- ===== src/Planner/Conditions.antt =====
-- One field's condition in a query and in the filter of a partial index.
use mdb_embedded.Prelude.{
  ◌≡◌, refl, subst, inl, inr, String, str_eq, Bool, true, false, ◌||◌, Bool-cases, Option, some,
  Option-cases, if◌then◌else◌, arith,
}
use mdb_embedded.Bson.{Bson, Document, end, field, Result, ok, err, panic, ◌>>=◌, Externals, f64_le}
use mdb_embedded.Query.{eval_query, every_operator, eval_operator}
use mdb_embedded.Query.Logic.{answer}
use mdb_embedded.Planner.{bound_holds, is_tighter_bound, operators_satisfied, bson_to_f64}
use mdb_embedded.Planner.Bounds.{
  IsSafeValue, IsSafeOption, IsPlain, IsEntry, IsOrdered, lower_bounds, upper_bounds,
  tighter_numbers,
}

-- The values of a condition's operators.
abbrev pub AllSafe : Document → Type 0
AllSafe end = Unit
AllSafe (field op v d) = IsSafeValue v × AllSafe d

pub AllSafe-IsEntry :
    (d : Document) (k : String) (v : Bson) → AllSafe d → IsEntry k v d → IsSafeValue v
AllSafe-IsEntry end k v h i = elim i [ ]
AllSafe-IsEntry (field j w d) k v h (inl (e, f)) = subst IsSafeValue f h.0
AllSafe-IsEntry (field j w d) k v h (inr i) = AllSafe-IsEntry d k v h.1 i

-- Operands of which `==` holds only where they are the same.
abbrev pub AllPlainOperands : Externals → Document → Type 0
AllPlainOperands ext end = Unit
AllPlainOperands ext (field op v d) = IsPlain ext v × AllPlainOperands ext d

pub and_then-inv :
    (r s : Result Bool)
    → (r >>= λ b. if b then s else ok false) ≡ ok true
    → (r ≡ ok true) × (s ≡ ok true)
and_then-inv (ok true) s h = (refl, h)
and_then-inv (ok false) s h = absurd (ground (arith, h))
and_then-inv (err _) s h = absurd (ground (arith, h))
and_then-inv panic s h = absurd (ground (arith, h))

module _ (ext : Externals) (o : IsOrdered ext) where
  module _ (doc : Document) (key : String) (value : Option Bson) where
    -- A tighter bound implies the bound.
    answer-tighter :
        (op : String) (p q : Bson)
        → IsSafeOption value
        → IsSafeValue p
        → IsSafeValue q
        → is_tighter_bound ext op p q ≡ true
        → answer ext doc key value op q ≡ ok true
        → answer ext doc key value op p ≡ ok true
    unfolding is_tighter_bound answer eval_operator
    answer-tighter op p q hv hp hq t h =
        let (fp, fq, ep, eq) = tighter_numbers ext o op p q t in
        let bound : bound_holds ext op (some fp) (some fq) ≡ true =
          subst (λ b. bound_holds ext op (some fp) b ≡ true) eq
            (subst (λ a. bound_holds ext op a (bson_to_f64 ext q) ≡ true) ep t) in
        elim (Bool-cases (str_eq op "$gt")) [
          | inl e ↦
              (let le : f64_le ext fp fq ≡ true = ground (arith, bound, e) in
                ground (arith, e, h, (lower_bounds ext o value p q fp fq hv hp hq ep eq le).0))
          | inr n ↦ elim (Bool-cases (str_eq op "$gte")) [
            | inl e ↦
                (let le : f64_le ext fp fq ≡ true = ground (arith, bound, n, e) in
                  ground (arith, n, e, h, (lower_bounds ext o value p q fp fq hv hp hq ep eq le).1))
            | inr n' ↦ elim (Bool-cases (str_eq op "$lt")) [
              | inl e ↦
                  (let le : f64_le ext fq fp ≡ true = ground (arith, bound, n, n', e) in
                    ground (
                      arith,
                      n,
                      n',
                      e,
                      h,
                      (upper_bounds ext o value p q fp fq hv hp hq ep eq le).0,
                    ))
              | inr n'' ↦
                  (let le : f64_le ext fq fp ≡ true = ground (arith, bound, n, n', n'') in
                    let e : str_eq op "$lte" ≡ true = ground (arith, bound, n, n', n'') in
                    ground (
                      arith,
                      n,
                      n',
                      n'',
                      e,
                      h,
                      (upper_bounds ext o value p q fp fq hv hp hq ep eq le).1,
                    ))
            ]
          ]
        ]

    every_operator-IsEntry :
        (q : Document) (op : String) (v : Bson)
        → every_operator ext doc key value q ≡ ok true
        → IsEntry op v q
        → answer ext doc key value op v ≡ ok true
    unfolding answer eval_query
    every_operator-IsEntry end op v h i = elim i [ ]
    every_operator-IsEntry (field j w d) op v h (inl (e, f)) =
        subst (λ w'. answer ext doc key value op w' ≡ ok true) f
          (subst (λ j'. answer ext doc key value j' w ≡ ok true) e
            (and_then-inv (answer ext doc key value j w) (every_operator ext doc key value d) h).0)
    every_operator-IsEntry (field j w d) op v h (inr i) =
        every_operator-IsEntry d op v
          (and_then-inv (answer ext doc key value j w) (every_operator ext doc key value d) h).1 i

    one_operator :
        (op : String) (p w : Bson)
        → IsSafeOption value
        → IsSafeValue p
        → IsSafeValue w
        → IsPlain ext p
        → ext.beq w p || is_tighter_bound ext op p w ≡ true
        → answer ext doc key value op w ≡ ok true
        → answer ext doc key value op p ≡ ok true
    one_operator op p w hv hp hw plain same holds = elim (Bool-cases (ext.beq w p)) [
      | inl e ↦ subst (λ v. answer ext doc key value op v ≡ ok true) (o.eq_of_beq w p plain e) holds
      | inr n ↦ answer-tighter op p w hv hp hw (ground (arith, same, n)) holds
    ]

    pub operators_satisfied-implies :
        (q pf : Document)
        → IsSafeOption value
        → AllSafe q
        → AllSafe pf
        → AllPlainOperands ext pf
        → operators_satisfied ext q pf ≡ true
        → every_operator ext doc key value q ≡ ok true
        → every_operator ext doc key value pf ≡ ok true
    unfolding operators_satisfied answer eval_query
    operators_satisfied-implies q end hv hq hp plain s h = refl
    operators_satisfied-implies q (field op p rest) hv hq hp plain s h =
        elim (Option-cases (ext.get q op)) [
          | inl e ↦ absurd (ground (arith, s, e))
          | inr (w, e) ↦
              let entry = o.get-IsEntry q op w e in
              let holds = every_operator-IsEntry q op w h entry in
              let same : ext.beq w p || is_tighter_bound ext op p w ≡ true = ground (arith, s, e) in
              let more : operators_satisfied ext q rest ≡ true = ground (arith, s, e) in
              let first =
                one_operator op p w hv hp.0 (AllSafe-IsEntry q op w hq entry) plain.0 same holds in
              rw (first) (operators_satisfied-implies q rest hv hq hp.1 plain.1 more h)
        ]
