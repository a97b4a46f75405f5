-- ===== src/Exfat/Find/Collects.antt =====
-- What holds of every entry set that a walk reads, and of the walk's result.
use lite_forth.Common.{
  ℕ, zero, suc, ◌+◌, ◌≡◌, ◌⊎◌, refl, subst, Bool, true, false, inl, inr, Bool-cases, List, Option,
  none, some, ◌==◌, get_or,
}
use lite_forth.Exfat.{
  Outcome, ok, fail, ExfatVol, DirCursor, FatCache, dir_entry, dir_advance, entry_of,
}
use lite_forth.Exfat.Walk.{Outcome-cases}
use lite_forth.Exfat.Sets.{no_set, no_part}
use lite_forth.Exfat.Find.{set_loop, walk}

-- What holds of what is collected of a set, and what then holds of the walk's result.
module _ (read : ℕ → ℕ × List ℕ) (vol : ExfatVol) {S C R : Type 0} (begin : List ℕ → S)
    (update : ℕ → List ℕ → S → S) (visit : C → DirCursor → S → FatCache → R ⊎ C) (finish : C → R)
    (failed : C → ℕ → R) (P : S → Type 0) (Q : R → Type 0) (begins : (e : List ℕ) → P (begin e))
    (keeps : (k : ℕ) (e : List ℕ) (s : S) → P s → P (update k e s))
    (visits : (ctx : C) (d : DirCursor) (s : S) (cache : FatCache) (r : R)
      → P s
      → visit ctx d s cache ≡ inl r
      → Q r)
    (finishes : (ctx : C) → Q (finish ctx)) (fails : (ctx : C) (err : ℕ) → Q (failed ctx err)) where
  abbrev Collects : Outcome (Bool × DirCursor × S) → Type 0
  Collects (fail err) = Unit {0}
  Collects (ok (whole, d, s)) = P s

  abbrev Results : Option R → Type 0
  Results none = Unit {0}
  Results (some r) = Q r

  set_loop-Collects :
      (left k : ℕ) (d : DirCursor) (cache : FatCache) (s : S)
      → P s
      → Collects (set_loop read vol update left k d cache s).0
  unfolding set_loop
  set_loop-Collects zero k d cache s p = p
  set_loop-Collects (suc left) k d cache s p =
      elim (Outcome-cases (dir_advance read vol d cache).0) [
        | inr (err, e) ↦ rw (set_loop, e) tt
        | inl (d', e) ↦ elim (Outcome-cases (dir_entry read vol d')) [
          | inr (err, e') ↦ rw (set_loop, e, e') tt
          | inl (none, e') ↦ rw (set_loop, e, e') tt
          | inl (some d'', e') ↦ elim (Bool-cases (no_part k (entry_of d''))) [
            | inl apart ↦ rw (set_loop, e, e', apart) p
            | inr part ↦
                rw (set_loop, e, e', part)
                  (set_loop-Collects left (k + 1) d'' (dir_advance read vol d cache).1
                    (update k (entry_of d'') s) (keeps k (entry_of d'') s p))
          ]
        ]
      ]

  abbrev steps : ℕ → DirCursor → FatCache → C → Option R
  steps = walk read vol begin update visit finish failed

  after_visit :
      (fuel : ℕ) (d : DirCursor) (cache : FatCache) (v : R ⊎ C)
      → ((r : R) → v ≡ inl r → Q r)
      → ((d' : DirCursor) (cache' : FatCache) (ctx : C) → Results (steps fuel d' cache' ctx))
      → Results (elim v [
        | inl result ↦ some result
        | inr ctx ↦ elim (dir_advance read vol d cache).0 [
          | fail err ↦ some (failed ctx err)
          | ok next ↦ steps fuel next (dir_advance read vol d cache).1 ctx
        ]
      ])
  after_visit fuel d cache (inl result) q go = q result refl
  after_visit fuel d cache (inr ctx) q go = elim (Outcome-cases (dir_advance read vol d cache).0) [
    | inr (err, e) ↦ rw e (fails ctx err)
    | inl (d', e) ↦ rw e (go d' (dir_advance read vol d cache).1 ctx)
  ]

  pub walk-Results :
      (fuel : ℕ) (d : DirCursor) (cache : FatCache) (ctx : C) → Results (steps fuel d cache ctx)
  unfolding walk
  walk-Results zero d cache ctx = tt
  walk-Results (suc fuel) d cache ctx = elim (Outcome-cases (dir_entry read vol d)) [
    | inr (err, e) ↦ rw (walk, e) (fails ctx err)
    | inl (none, e) ↦ rw (walk, e) (finishes ctx)
    | inl (some d', e) ↦ elim (Bool-cases (get_or (entry_of d') 0 0 == 0)) [
      | inl over ↦ rw (walk, e, over) (finishes ctx)
      | inr more ↦ elim (Bool-cases (no_set (entry_of d'))) [
        | inl step ↦ elim (Outcome-cases (dir_advance read vol d' cache).0) [
          | inr (err, a) ↦ rw (walk, e, more, step, a) (fails ctx err)
          | inl (d'', a) ↦
              rw (walk, e, more, step, a)
                (walk-Results fuel d'' (dir_advance read vol d' cache).1 ctx)
        ]
        | inr set ↦
            (let r =
                set_loop read vol update (get_or (entry_of d') 1 0) 1 d' cache
                  (begin (entry_of d')) in
              let collected =
                set_loop-Collects (get_or (entry_of d') 1 0) 1 d' cache (begin (entry_of d'))
                  (begins (entry_of d')) in
              elim (Outcome-cases r.0) [
                | inr (err, b) ↦ rw (walk, e, more, set, b) (fails ctx err)
                | inl ((false, d2, s), b) ↦
                    rw (walk, e, more, set, b) (walk-Results fuel d2 r.1 ctx)
                | inl ((true, d2, s), b) ↦
                    rw (walk, e, more, set, b)
                      (after_visit fuel d2 r.1 (visit ctx d' s r.1)
                        (λ found q. visits ctx d' s r.1 found (subst Collects b collected) q)
                        (λ d3 cache3 ctx3. walk-Results fuel d3 cache3 ctx3))
              ])
      ]
    ]
  ]
