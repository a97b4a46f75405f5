-- ===== src/Exfat/Find/Ends.antt =====
-- Every walk of a directory ends, whatever its FAT says.
use lite_forth.Common.{
  ℕ, zero, suc, ◌+◌, ◌-◌, ◌≤◌, ◌<◌, ◌≡◌, ◌⊎◌, refl, subst, arith, Bool, true, false, ◌||◌, inl, inr,
  Bool-cases, List, Option, none, some, ltb, ◌==◌, get_or, length,
}
use lite_forth.Exfat.{
  Outcome, ok, fail, ExfatVol, ExfatFile, DirCursor, FatCache, dir_entry, dir_advance, dir_fuel,
  dir_open, entry_of, no_fat,
}
use lite_forth.Exfat.Walk.{
  Outcome-cases, InDir, weight, weight-pos, dir_open-InDir, weight-dir_open, dir_entry-InDir,
  dir_advance-nearer,
}
use lite_forth.Exfat.Sets.{
  no_set, no_part, find_entry, begin_found, file_not_found, list_entry, list_visit, begin_listed,
}
use lite_forth.Exfat.Find.{set_loop, walk, exfat_find, exfat_list, find_visit}

abbrev Ended {ℓ} : {R : Type ℓ} → Option R → Type 0
Ended none = ⊥
Ended (some r) = Unit {0}

Ended-some {ℓ} : {R : Type ℓ} (o : Option R) → Ended o → (r : R) × (o ≡ some r)
Ended-some none h = absurd h
Ended-some (some r) h = (r, refl)

set_count : (e : List ℕ) → no_set e ≡ false → 2 ≤ get_or e 1 0
set_count e h = ground (arith, h)

-- The cursor that set_loop leaves has at most so far to go.
abbrev AtMost : {S : Type 0} → ExfatVol → ℕ → Outcome (Bool × DirCursor × S) → Type 0
AtMost vol bound (fail err) = Unit {0}
AtMost vol bound (ok (whole, d, s)) = InDir vol d × (weight vol d ≤ bound) × (d.at_end ≡ 0)

module _ (read : ℕ → ℕ × List ℕ) (vol : ExfatVol) (shift : vol.spc_shift ≤ 16) where
  none_left :
      {S : Type 0} (update : ℕ → List ℕ → S → S) (left k : ℕ) (d : DirCursor) (cache : FatCache)
      (s : S) (bound : ℕ)
      → InDir vol d × (weight vol d ≤ bound) × (d.at_end ≡ 0)
      → (0 < left → AtMost vol bound (set_loop read vol update left k d cache s).0)
      → AtMost vol bound (set_loop read vol update left k d cache s).0
  unfolding set_loop
  none_left update zero k d cache s bound at more = at
  none_left update (suc left) k d cache s bound at more = more (omega arith)

  set_loop-AtMost :
      {S : Type 0} (update : ℕ → List ℕ → S → S) (left k : ℕ) (d : DirCursor) (cache : FatCache)
      (s : S) (bound : ℕ)
      → 0 < left
      → InDir vol d
      → d.at_end ≡ 0
      → weight vol d ≤ suc bound
      → AtMost vol bound (set_loop read vol update left k d cache s).0
  unfolding set_loop
  set_loop-AtMost update zero k d cache s bound p h a w = absurd (omega arith)
  set_loop-AtMost update (suc left) k d cache s bound p h a w =
      elim (Outcome-cases (dir_advance read vol d cache).0) [
        | inr (err, e) ↦ rw (set_loop, e) tt
        | inl (d', e) ↦
            (let near = dir_advance-nearer read vol d d' cache e shift h a in
              elim (Outcome-cases (dir_entry read vol d')) [
                | inr (err, e') ↦ rw (set_loop, e, e') tt
                | inl (none, e') ↦ rw (set_loop, e, e') tt
                | inl (some d'', e') ↦
                    (let there = dir_entry-InDir read vol d' d'' e' near.0 in
                      elim (Bool-cases (no_part k (entry_of d''))) [
                        | inl apart ↦
                            rw (set_loop, e, e', apart)
                              (there.0, omega (arith, near.1, there.1, w), there.2)
                        | inr part ↦
                            rw (set_loop, e, e', part)
                              (let s' = update k (entry_of d'') s in
                                let cache' = (dir_advance read vol d cache).1 in
                                none_left update left (k + 1) d'' cache' s' bound
                                  (there.0, omega (arith, near.1, there.1, w), there.2)
                                  (λ q.
                                    set_loop-AtMost update left (k + 1) d'' cache' s' bound q
                                      there.0 there.2 (omega (arith, near.1, there.1, w))))
                      ])
              ])
      ]

  module _ {S C R : Type 0} (begin : List ℕ → S) (update : ℕ → List ℕ → S → S)
      (visit : C → DirCursor → S → FatCache → R ⊎ C) (finish : C → R) (failed : C → ℕ → R) where
    abbrev steps : ℕ → DirCursor → FatCache → C → Option R
    steps = walk read vol begin update visit finish failed

    -- Whatever the visit of a whole set says.
    after_visit :
        (fuel : ℕ) (d : DirCursor) (cache : FatCache) (v : R ⊎ C)
        → InDir vol d
        → d.at_end ≡ 0
        → weight vol d ≤ fuel
        → ((d' : DirCursor) (cache' : FatCache) (ctx : C)
            → InDir vol d'
            → weight vol d' < fuel
            → Ended (steps fuel d' cache' ctx))
        → Ended (elim v [
          | inl result ↦ some result
          | inr ctx ↦ elim (dir_advance read vol d cache).0 [
            | fail err ↦ some (failed ctx err)
            | ok next ↦ steps fuel next (dir_advance read vol d cache).1 ctx
          ]
        ])
    after_visit fuel d cache (inl result) h a w go = tt
    after_visit fuel d cache (inr ctx) h a w go =
        elim (Outcome-cases (dir_advance read vol d cache).0) [
          | inr (err, e) ↦ rw e tt
          | inl (d', e) ↦ rw e (
              let near = dir_advance-nearer read vol d d' cache e shift h a in
              go d' (dir_advance read vol d cache).1 ctx near.0 (omega (arith, near.1, w)))
        ]

    walk-Ended :
        (fuel : ℕ) (d : DirCursor) (cache : FatCache) (ctx : C)
        → InDir vol d
        → weight vol d < fuel
        → Ended (steps fuel d cache ctx)
    unfolding walk
    walk-Ended zero d cache ctx h w = absurd (omega arith)
    walk-Ended (suc fuel) d cache ctx h w = elim (Outcome-cases (dir_entry read vol d)) [
      | inr (err, e) ↦ rw (walk, e) tt
      | inl (none, e) ↦ rw (walk, e) tt
      | inl (some d', e) ↦ elim (Bool-cases (get_or (entry_of d') 0 0 == 0)) [
        | inl over ↦ rw (walk, e, over) tt
        | inr more ↦
            (let there = dir_entry-InDir read vol d d' e h in
              elim (Bool-cases (no_set (entry_of d'))) [
                | inl step ↦ elim (Outcome-cases (dir_advance read vol d' cache).0) [
                  | inr (err, a) ↦ rw (walk, e, more, step, a) tt
                  | inl (d'', a) ↦
                      (let near =
                          dir_advance-nearer read vol d' d'' cache a shift there.0 there.2 in
                        rw (walk, e, more, step, a)
                          (walk-Ended fuel d'' (dir_advance read vol d' cache).1 ctx near.0
                            (omega (arith, near.1, there.1, w))))
                ]
                | inr set ↦
                    (let r =
                        set_loop read vol update (get_or (entry_of d') 1 0) 1 d' cache
                          (begin (entry_of d')) in
                      let first = weight-pos vol d' there.2 in
                      let some_entry = set_count (entry_of d') set in
                      let near =
                        set_loop-AtMost update (get_or (entry_of d') 1 0) 1 d' cache
                          (begin (entry_of d')) (fuel - 1) (omega (arith, some_entry)) there.0
                          there.2 (omega (arith, first, there.1, w)) in
                      elim (Outcome-cases r.0) [
                        | inr (err, b) ↦ rw (walk, e, more, set, b) tt
                        | inl ((false, d2, s), b) ↦
                            (let at = subst (AtMost vol (fuel - 1)) b near in
                              rw (walk, e, more, set, b)
                                (walk-Ended fuel d2 r.1 ctx at.0
                                  (omega (arith, at.1, first, there.1, w))))
                        | inl ((true, d2, s), b) ↦
                            (let at = subst (AtMost vol (fuel - 1)) b near in
                              rw (walk, e, more, set, b)
                                (after_visit fuel d2 r.1 (visit ctx d' s r.1) at.0 at.2
                                  (omega (arith, at.1))
                                  (λ d3 cache3 ctx3 h3 w3. walk-Ended fuel d3 cache3 ctx3 h3 w3)))
                      ])
              ])
      ]
    ]

  -- On a volume with clusters of at most 2 ^ 16 sectors, searching a directory for a name ends,
  -- within the fuel of the model, whatever is on the card and however its FAT is linked:
  -- exfat_find returns a file or an error.
  pub exfat_find-ends :
      (dir : ℕ) (name : List ℕ) → (r : Outcome ExfatFile) × (exfat_find read vol dir name ≡ some r)
  unfolding exfat_find
  exfat_find-ends dir name =
      Ended-some (exfat_find read vol dir name)
        (elim (Bool-cases ((length name == 0) || ltb 255 (length name))) [
          | inl bad ↦ rw bad tt
          | inr good ↦ rw good (
              walk-Ended begin_found (find_entry name) (find_visit read vol name)
                (λ ctx. fail file_not_found) (λ ctx err. fail err) (dir_fuel vol) (dir_open dir)
                no_fat tt (dir_open-InDir vol dir) (weight-dir_open vol dir))
        ])

  -- So does listing it, whatever the callback answers.
  pub exfat_list-ends :
      {C : Type 0} (dir : ℕ) (fn : C → List ℕ → ExfatFile → ℕ × C) (ctx : C)
      → (r : ℕ × C) × (exfat_list read vol dir fn ctx ≡ some r)
  unfolding exfat_list
  exfat_list-ends dir fn ctx = Ended-some (exfat_list read vol dir fn ctx) (
      walk-Ended begin_listed list_entry (list_visit fn) (λ ctx. (0, ctx)) (λ ctx err. (err, ctx))
        (dir_fuel vol) (dir_open dir) no_fat ctx (dir_open-InDir vol dir) (weight-dir_open vol dir))
