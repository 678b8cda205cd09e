-- ===== src/Std/BinarySearch.antt =====
-- `slice::binary_search_by` of Rust's standard library, over a test of positions.
use mdb_embedded.Prelude.{
  ℕ, zero, suc, ◌+◌, ◌-◌, ◌/◌, ◌≤◌, ◌<◌, ◌≡◌, ◌≢◌, ◌⊎◌, inl, inr, refl, Bool-cases, true, false,
  Ordering, ltb, ◌==◌, is_gt, if◌then◌else◌, arith,
}

-- `Ok(index)` or `Err(index)`.
pub data Search : Type 0 where
  found : ℕ → Search
  missing : ℕ → Search

next_base : (ℕ → Ordering) → ℕ → ℕ → ℕ
next_base f base size = if is_gt (f (base + size / 2)) then base else base + size / 2

-- The loop that halves `size`; the fuel is at least `size`.
halve : ℕ → (ℕ → Ordering) → ℕ → ℕ → ℕ
halve zero f base size = base
halve (suc fuel) f base size = elim (ltb 1 size) [
  | true ↦ halve fuel f (next_base f base size) (size - size / 2)
  | false ↦ base
]

at_base : (ℕ → Ordering) → ℕ → Search
at_base f base = elim (f base) [
  | Ordering.eq ↦ found base
  | Ordering.lt ↦ missing (base + 1)
  | Ordering.gt ↦ missing base
]

unfoldable pub binary_search_by : ℕ → (ℕ → Ordering) → Search
unfolding halve at_base next_base
binary_search_by size f = if size == 0 then missing 0 else at_base f (halve size f 0 size)

-- The positions below `n` are first less, then equal, then greater.
pub record IsPartitioned (n : ℕ) (f : ℕ → Ordering) : Type 0 where
  pub less_before : (i j : ℕ) → i < j → j < n → f j ≡ Ordering.lt → f i ≡ Ordering.lt
  pub greater_after : (i j : ℕ) → i < j → j < n → f i ≡ Ordering.gt → f j ≡ Ordering.gt

-- What the answer says of the positions.
abbrev pub Answers : ℕ → (ℕ → Ordering) → Search → Type 0
Answers n f (found i) = (i < n) × (f i ≡ Ordering.eq)
Answers n f (missing i) =
    (i ≤ n) × ((j : ℕ) → j < i → f j ≡ Ordering.lt) × ((j : ℕ) → i ≤ j → j < n → f j ≡ Ordering.gt)

Ordering-cases : (o : Ordering) → ((o ≡ Ordering.lt) ⊎ (o ≡ Ordering.eq)) ⊎ (o ≡ Ordering.gt)
Ordering-cases Ordering.lt = inl (inl refl)
Ordering-cases Ordering.eq = inl (inr refl)
Ordering-cases Ordering.gt = inr refl

module _ (n : ℕ) (f : ℕ → Ordering) (p : IsPartitioned n f) where
  record Holds (base : ℕ) (size : ℕ) : Type 0 where
    room : base + size ≤ n
    some_left : 0 < size
    greater : (j : ℕ) → base + size ≤ j → j < n → f j ≡ Ordering.gt
    start : (base ≡ 0) ⊎ (f base ≢ Ordering.gt)

  from_middle :
      (base size : ℕ)
      → Holds base size
      → is_gt (f (base + size / 2)) ≡ true
      → (j : ℕ) → base + (size - size / 2) ≤ j
      → j < n
      → f j ≡ Ordering.gt
  from_middle base size h gt j le lt =
      ground (arith, gt, h.room, p.greater_after (base + size / 2) j)

  next-Holds :
      (base size : ℕ) → 1 < size → Holds base size → Holds (next_base f base size) (size - size / 2)
  unfolding next_base
  next-Holds base size more h = elim (Bool-cases (is_gt (f (base + size / 2)))) [
    | inl gt ↦ rw gt (record {
      room = omega (arith, h.room);
      some_left = omega arith;
      greater = λ j le lt. from_middle base size h gt j (omega (arith, le)) lt;
      start = h.start;
    })
    | inr not_gt ↦ rw not_gt (record {
      room = omega (arith, h.room);
      some_left = omega arith;
      greater = λ j le lt. h.greater j (omega arith) lt;
      start = inr (λ e. ground (arith, e, not_gt));
    })
  ]

  halve-Holds :
      (fuel base size : ℕ) → size ≤ fuel → Holds base size → Holds (halve fuel f base size) 1
  unfolding halve
  halve-Holds zero base size le h = absurd (omega (arith, h.some_left))
  halve-Holds (suc fuel) base size le h = elim (Bool-cases (ltb 1 size)) [
    | inl more ↦
        rw (more, halve)
          (halve-Holds fuel (next_base f base size) (size - size / 2) (ground arith)
            (next-Holds base size (ground arith) h))
    | inr done ↦ rw (done, halve) (let e : size ≡ 1 = ground (arith, h.some_left) in rw (← e) h)
  ]

  at_base-lt : {b : ℕ} → f b ≡ Ordering.lt → at_base f b ≡ missing (b + 1)
  unfolding at_base
  at_base-lt e = rw (e, at_base)

  at_base-eq : {b : ℕ} → f b ≡ Ordering.eq → at_base f b ≡ found b
  unfolding at_base
  at_base-eq e = rw (e, at_base)

  at_base-gt : {b : ℕ} → f b ≡ Ordering.gt → at_base f b ≡ missing b
  unfolding at_base
  at_base-gt e = rw (e, at_base)

  at_base-Answers : (base : ℕ) → Holds base 1 → Answers n f (at_base f base)
  at_base-Answers base h = elim (Ordering-cases (f base)) [
    | inl (inl less) ↦ rw (at_base-lt less) (
      omega (arith, h.room),
      λ j lt. ground (arith, less, h.room, p.less_before j base),
      λ j le lt. h.greater j le lt,
    )
    | inl (inr equal) ↦ rw (at_base-eq equal) (omega (arith, h.room), equal)
    | inr more ↦ rw (at_base-gt more) (
      omega (arith, h.room),
      λ j lt. ground (arith, more, h.start),
      λ j le lt. ground (arith, more, h.start, h.greater j),
    )
  ]

  -- The search over `n` positions finds an equal one, or the place that parts the less from the greater.
  pub binary_search_by-Answers : Answers n f (binary_search_by n f)
  unfolding binary_search_by
  binary_search_by-Answers = elim (Bool-cases (n == 0)) [
    | inl none ↦
        rw none (omega arith, λ j lt. absurd (omega arith), λ j le lt. absurd (ground arith))
    | inr some ↦ rw some (
        at_base-Answers (halve n f 0 n) (
          halve-Holds n 0 n (omega arith) (record {
            room = omega arith;
            some_left = ground arith;
            greater = λ j le lt. absurd (omega arith);
            start = inl refl;
          })))
  ]
