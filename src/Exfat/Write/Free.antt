-- ===== src/Exfat/Write/Free.antt =====
-- find_free against the bits of the bitmap.
use native.Mathlib.Decide.{dec_lt}
use lite_forth.Common.{
  ℕ, zero, suc, ◌+◌, ◌-◌, ◌/◌, ◌%◌, ◌^◌, ◌≤◌, ◌<◌, ◌≡◌, ◌≢◌, refl, sym, ap, ◌∙◌, arith, true, false,
  [], subst, not, ◌&&◌, List, ◌==◌, ==_iff, if◌then◌else◌, Bool-cases, inl, inr, u32, get_or,
}
use lite_forth.Exfat.{Outcome, ok, fail, ExfatVol, bit}
use lite_forth.Exfat.Write.{sector_bits, create_failed, free_loop, find_free}
use lite_forth.Exfat.Write.Bits.{bit_of}
use lite_forth.Exfat.Write.Bitmap.{bitmap_bit}

module _ (read : ℕ → ℕ × List ℕ) (start n : ℕ) where
  -- Bits a to b - 1 are clear.
  abbrev pub IsFree : ℕ → ℕ → Type 0
  IsFree a b = (k : ℕ) → a ≤ k → k < b → bitmap_bit read start k ≡ 0

  -- The lowest run of n clear bits below `stop`, as the number of its first cluster, or that there
  -- is none.
  abbrev pub IsLowest : ℕ → Outcome ℕ → Type 0
  IsLowest stop (ok first) =
      (2 ≤ first)
      × (first - 2 + n ≤ stop)
      × IsFree (first - 2) (first - 2 + n)
      × ((j : ℕ) → j < first - 2 → ¬ IsFree j (j + n))
  IsLowest stop (fail err) = (err ≡ create_failed) × ((j : ℕ) → j + n ≤ stop → ¬ IsFree j (j + n))

  module _ (reads : (s : ℕ) → (read s).0 ≡ 0) (stop : ℕ)
      (room : start + stop / sector_bits < 2 ^ 32) (words : stop + 1 < 2 ^ 32) where
    -- The state of the loop at a bit: the sector's bytes, and the run that ends there.
    record IsRun (at_bit run at : ℕ) (buf : List ℕ) : Type 0 where
      loaded : at_bit % sector_bits ≢ 0 → buf ≡ (read (start + at_bit / sector_bits)).1
      short : run < n
      within : run ≤ at_bit
      from : 0 < run → at ≡ at_bit - run
      free : IsFree (at_bit - run) at_bit
      lowest : (j : ℕ) → j < at_bit - run → ¬ IsFree j (j + n)

    free_loop-IsLowest :
        (left at_bit run at : ℕ) (buf : List ℕ)
        → IsRun at_bit run at buf
        → at_bit + left ≡ stop
        → IsLowest stop (free_loop read start n left at_bit run at buf)
    unfolding free_loop
    free_loop-IsLowest zero at_bit run at buf inv e =
        (refl, λ j h. inv.lowest j (omega (arith, inv.short, inv.within, e, h)))
    free_loop-IsLowest (suc left) at_bit run at buf inv e =
        elim (Bool-cases (bit (get_or buf' (i / 8) 0) (i % 8) == 0)) [
          | inr used ↦
              rw (free_loop, no_error, used)
                (free_loop-IsLowest left (at_bit + 1) 0 at buf'
                  (record {
                    loaded = next_loaded;
                    short = omega (arith, inv.short);
                    within = omega arith;
                    from = λ h. absurd (omega (arith, h));
                    free = λ k p q. absurd (omega (arith, p, q));
                    lowest = after_used used;
                  })
                  (omega (arith, e)))
          | inl clear ↦ elim (Bool-cases (run + 1 == n)) [
            | inl found ↦
                rw (free_loop, no_error, clear, found)
                  (subst (λ t. IsLowest stop (ok t)) (sym first)
                    (
                      omega arith,
                      omega (arith, e, inv.within, (==_iff _ _).0 found),
                      λ k p q.
                          longer clear k (omega (arith, p))
                            (omega (arith, q, inv.within, (==_iff _ _).0 found)),
                      λ j h. inv.lowest j (omega (arith, h)),
                    ))
            | inr more ↦
                rw (free_loop, no_error, clear, more)
                  (free_loop-IsLowest left (at_bit + 1) (run + 1) at' buf'
                    (record {
                      loaded = next_loaded;
                      short = ground (arith, more, inv.short);
                      within = omega (arith, inv.within);
                      from = λ h. omega (arith, begins, inv.within);
                      free = λ k p q. longer clear k (omega (arith, p, inv.within)) q;
                      lowest = λ j h. inv.lowest j (omega (arith, h, inv.within));
                    })
                    (omega (arith, e)))
          ]
        ]
      where
        i : ℕ
        i = at_bit % sector_bits

        sector : u32 (start + at_bit / sector_bits) ≡ start + at_bit / sector_bits
        sector = omega (arith, e, room)

        buf' : List ℕ
        buf' = if i == 0 then (read (u32 (start + at_bit / sector_bits))).1 else buf

        at' : ℕ
        at' = if run == 0 then at_bit else at

        no_error : ((i == 0) && not ((read (u32 (start + at_bit / sector_bits))).0 == 0)) ≡ false
        no_error = ground (arith, reads (u32 (start + at_bit / sector_bits)))

        now : buf' ≡ (read (start + at_bit / sector_bits)).1
        now = elim (Bool-cases (i == 0)) [
          | inl fresh ↦ rw fresh (ap (λ (t : ℕ). (read t).1) sector)
          | inr kept ↦ rw kept (inv.loaded (ground (arith, kept)))
        ]

        this : bit (get_or buf' (i / 8) 0) (i % 8) ≡ bitmap_bit read start at_bit
        this = ap (λ t. bit_of t i) now

        next_loaded :
            (at_bit + 1) % sector_bits ≢ 0 → buf' ≡ (read (start + (at_bit + 1) / sector_bits)).1
        next_loaded inside =
            let same : (at_bit + 1) / sector_bits ≡ at_bit / sector_bits = omega (arith, inside) in
            now ∙ ap (λ (t : ℕ). (read (start + t)).1) (sym same)

        begins : at' ≡ at_bit - run
        begins = ground (arith, inv.from)

        first : u32 (at' + 2) ≡ at_bit - run + 2
        first = omega (arith, begins, e, words)

        longer :
            (bit (get_or buf' (i / 8) 0) (i % 8) == 0) ≡ true
            → (k : ℕ) → at_bit - run ≤ k
            → k < at_bit + 1
            → bitmap_bit read start k ≡ 0
        longer clear k p q = elim (Bool-cases (k == at_bit)) [
          | inl last ↦
              ap (bitmap_bit read start) ((==_iff _ _).0 last) ∙ sym this ∙ (==_iff _ _).0 clear
          | inr before ↦ inv.free k p (ground (arith, before, q))
        ]

        after_used :
            (bit (get_or buf' (i / 8) 0) (i % 8) == 0) ≡ false
            → (j : ℕ) → j < at_bit + 1 - 0
            → ¬ IsFree j (j + n)
        after_used used j h free = elim (dec_lt j (at_bit - run)) [
          | yes earlier ↦ inv.lowest j earlier free
          | no later ↦
              (let clear =
                  this
                  ∙ free at_bit (omega (arith, h)) (omega (arith, later, inv.short, inv.within)) in
                absurd (cc (sym used ∙ (==_iff _ _).1 clear)))
        ]

    -- The loop from the first cluster on.
    pub find_free-IsLowest :
        (vol : ExfatVol) → vol.clusters ≡ stop → 0 < n → IsLowest stop (find_free read vol start n)
    find_free-IsLowest vol e some_clusters =
        free_loop-IsLowest vol.clusters 0 0 0 []
          (record {
            loaded = λ h. absurd (h refl);
            short = some_clusters;
            within = omega arith;
            from = λ h. absurd (omega (arith, h));
            free = λ k p q. absurd (omega (arith, q));
            lowest = λ j h. absurd (omega (arith, h));
          })
          (omega (arith, e))

-- Where no read fails, find_free gives the lowest run of n free clusters of the volume, and fails
-- only where there is no such run. n is positive, and the clusters and the bitmap's sectors have
-- numbers of 32 bits.
pub find_free_lem :
    (read : ℕ → ℕ × List ℕ) (vol : ExfatVol) (start n : ℕ)
    → ((s : ℕ) → (read s).0 ≡ 0)
    → start + vol.clusters / sector_bits < 2 ^ 32
    → vol.clusters + 1 < 2 ^ 32
    → 0 < n
    → IsLowest read start n vol.clusters (find_free read vol start n)
find_free_lem read vol start n reads room words p =
    find_free-IsLowest read start n reads vol.clusters room words vol refl p
