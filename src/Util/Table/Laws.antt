-- ===== src/Util/Table/Laws.antt =====
-- A table with distinct keys and a row that stops the loop: each row is found by its key, and what
-- is found is a row with the key.
use matlab_zmq.Prelude.{
  ℕ, zero, suc, ◌≡◌, refl, Bool, true, ◌&&◌, not, ◌⊎◌, inl, inr, some, List, [], ◌∷◌, ◌++◌, arith,
  get_elem?, Bool-cases,
}
use matlab_zmq.Util.Table.{missing, found, scan}

module _ {R : Type 0} where
  -- Every row satisfies `p`.
  abbrev pub every : (R → Bool) → List R → Bool
  every p [] = true
  every p (r ∷ rs) = p r && every p rs

  -- No row is hit by the test for a row above it.
  abbrev pub apart : (R → R → Bool) → List R → Bool
  apart same [] = true
  apart same (r ∷ rs) = every (λ x. not (same r x)) rs && apart same rs

  pub every_at :
      (p : R → Bool) (rs : List R) (i : ℕ) {r : R}
      → every p rs ≡ true
      → get_elem? rs i ≡ some r
      → p r ≡ true
  every_at p [] i h e = cc
  every_at p (x ∷ rs) zero h e = ground arith
  every_at p (x ∷ rs) (suc i) h e = every_at p rs i (ground arith) e

module _ {R : Type 0} (stop : R → Bool) where
  -- With distinct keys the loop ends at the row whose key it looks for.
  pub scan-found :
      (same : R → R → Bool) (rs : List R) (last : R) (i : ℕ) {r : R}
      → same r r ≡ true
      → every (λ x. not (stop x)) rs ≡ true
      → apart (λ x y. same y x) rs ≡ true
      → get_elem? rs i ≡ some r
      → scan stop (same r) (rs ++ last ∷ []) ≡ found r
  unfolding scan
  scan-found same [] last i eq on diff e = cc
  scan-found same (x ∷ rs) last zero {r} eq on diff e = ground arith
  scan-found same (x ∷ rs) last (suc i) {r} eq on diff e = ground (
    arith,
    every_at (λ y. not (same y x)) rs i {r = r} (ground arith) e,
    scan-found same rs last i {r = r} eq (ground arith) (ground arith) e,
  )

  -- The loop never leaves a table that ends with a row that stops it, and it ends at such a row or
  -- at a hit.
  pub scan-ends :
      (hit : R → Bool) (rs : List R) (last : R)
      → stop last ≡ true
      → ((r : R) × (scan stop hit (rs ++ last ∷ []) ≡ found r) × (hit r ≡ true))
        ⊎ ((r : R) × (scan stop hit (rs ++ last ∷ []) ≡ missing r) × (stop r ≡ true))
  unfolding scan
  scan-ends hit [] last h = inr (last, ground arith, h)
  scan-ends hit (x ∷ rs) last h = elim (Bool-cases (stop x)) [
    | inl e ↦ inr (x, rw e, e)
    | inr e ↦ elim (Bool-cases (hit x)) [
      | inl k ↦ inl (x, rw (e, k), k)
      | inr k ↦ rw (e, k) (scan-ends hit rs last h)
    ]
  ]

  -- If no row above the last is hit, the loop ends at the last row.
  pub scan-missing :
      (hit : R → Bool) (rs : List R) (last : R)
      → every (λ x. not (stop x)) rs ≡ true
      → every (λ x. not (hit x)) rs ≡ true
      → stop last ≡ true
      → scan stop hit (rs ++ last ∷ []) ≡ missing last
  unfolding scan
  scan-missing hit [] last on none_hit h = ground arith
  scan-missing hit (x ∷ rs) last on none_hit h =
      ground (arith, scan-missing hit rs last (ground arith) (ground arith) h)

  -- The row where the loop ends is a row of the table.
  pub scan-every :
      (hit p : R → Bool) (rs : List R) {r : R}
      → every p rs ≡ true
      → (scan stop hit rs ≡ found r) ⊎ (scan stop hit rs ≡ missing r)
      → p r ≡ true
  unfolding scan
  scan-every hit p [] h (inl e) = cc
  scan-every hit p [] h (inr e) = cc
  scan-every hit p (x ∷ rs) {r} h (inl e) = ground (
    arith,
    λ (a : every p rs ≡ true) (b : scan stop hit rs ≡ found r). scan-every hit p rs a (inl b),
  )
  scan-every hit p (x ∷ rs) {r} h (inr e) = ground (
    arith,
    λ (a : every p rs ≡ true) (b : scan stop hit rs ≡ missing r). scan-every hit p rs a (inr b),
  )

  -- A loop that stops without a hit has hit no row.
  pub scan-none_hit :
      (hit : R → Bool) (rs : List R) (last : R) {x : R}
      → every (λ r. not (stop r)) rs ≡ true
      → scan stop hit (rs ++ last ∷ []) ≡ missing x
      → every (λ r. not (hit r)) rs ≡ true
  unfolding scan
  scan-none_hit hit [] last on e = refl
  scan-none_hit hit (r ∷ rs) last {x} on e = ground (
    arith,
    λ (a : every (λ y. not (stop y)) rs ≡ true) (b : scan stop hit (rs ++ last ∷ []) ≡ missing x).
        scan-none_hit hit rs last a b,
  )

  -- What is found is a row of the table that is hit, and not its last.
  pub scan-found_row :
      (hit : R → Bool) (rs : List R) (last : R) {r : R}
      → stop last ≡ true
      → scan stop hit (rs ++ last ∷ []) ≡ found r
      → (i : ℕ) × (get_elem? rs i ≡ some r) × (hit r ≡ true)
  unfolding scan
  scan-found_row hit [] last h e = absurd (ground arith)
  scan-found_row hit (x ∷ rs) last {r} h e = elim (Bool-cases (stop x)) [
    | inl a ↦ absurd (ground arith)
    | inr a ↦ elim (Bool-cases (hit x)) [
      | inl b ↦ (0, ground arith, ground arith)
      | inr b ↦
          let rest : scan stop hit (rs ++ last ∷ []) ≡ found r = ground arith in
          let (i, at, k) = scan-found_row hit rs last h rest in (suc i, at, k)
    ]
  ]
