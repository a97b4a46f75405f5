-- ===== src/Exfat/Write/Bitmap.antt =====
-- bitmap_mark on a card that behaves.
use lite_forth.Common.{
  ℕ, zero, suc, ◌+◌, ◌-◌, ◌*◌, ◌/◌, ◌%◌, ◌^◌, ◌≤◌, ◌<◌, ◌≡◌, ◌≢◌, refl, sym, ap, ◌∙◌, arith, Bool,
  true, false, ◌&&◌, List, ltb, leb, ltb→lt, ◌==◌, ==_iff, if◌then◌else◌, length, All, Bool-cases,
  inl, inr, min, max, u32, sub32,
}
use lite_forth.Exfat.Write.{sector_bits, fuel_out, mark_bits, mark_loop, bitmap_mark}
use lite_forth.Exfat.Write.Bits.{digit, bit_of, IsByte, bit_of-mark_bits, mark_bits-All}

-- A card of sectors of 512 bytes: no read or write fails, and a sector holds what was written last.
pub record Behaves {K : Type 0} (read : K → ℕ → ℕ × List ℕ) (write : K → ℕ → List ℕ → ℕ × K)
    : Type 0 where
  pub reads : (card : K) (s : ℕ) → (read card s).0 ≡ 0
  pub writes : (card : K) (s : ℕ) (buf : List ℕ) → (write card s buf).0 ≡ 0
  pub size : (card : K) (s : ℕ) → length (read card s).1 ≡ 512
  pub bytes : (card : K) (s : ℕ) → All IsByte (read card s).1
  pub same :
      (card : K) (s : ℕ) (buf : List ℕ)
      → All IsByte buf
      → length buf ≡ 512
      → (read (write card s buf).1 s).1 ≡ buf
  pub other :
      (card : K) (s s' : ℕ) (buf : List ℕ)
      → s ≢ s'
      → (read (write card s buf).1 s').1 ≡ (read card s').1

-- Bit k of the bitmap that starts at a sector: cluster k + 2.
abbrev pub bitmap_bit : (ℕ → ℕ × List ℕ) → ℕ → ℕ → ℕ
bitmap_bit read start k = bit_of (read (start + k / sector_bits)).1 (k % sector_bits)

module _ {K : Type 0} (read : K → ℕ → ℕ × List ℕ) (write : K → ℕ → List ℕ → ℕ × K)
    (behaves : Behaves read write) (start : ℕ) where
  -- What a round of bitmap_mark writes: the bits from `at` up to `next`, in the sector of `at`.
  abbrev round : (at next : ℕ) → Bool → K → K
  round at next value card =
      (write card (start + at / sector_bits) (
        mark_bits value (next - at) (at - at / sector_bits * sector_bits)
          (read card (start + at / sector_bits)).1)).1

  sector_marked :
      (at next k : ℕ) (value : Bool) (card : K)
      → at < next
      → next ≤ at / sector_bits * sector_bits + sector_bits
      → bitmap_bit (read (round at next value card)) start k
        ≡ (if leb at k && ltb k next then digit value else bitmap_bit (read card) start k)
  sector_marked at next k value card p q = elim (Bool-cases (k / sector_bits == at / sector_bits)) [
    | inl same ↦
        (let here : k / sector_bits ≡ at / sector_bits = (==_iff _ _).0 same in
          ap (λ (t : ℕ). bit_of (read (round at next value card) (start + t)).1 (k % sector_bits))
            here
          ∙ ap (λ t. bit_of t (k % sector_bits))
              (behaves.same card sector (mark_bits value (next - at) from old) kept.0
                (kept.1 ∙ behaves.size card sector))
          ∙ bit_of-mark_bits value (next - at) from (k % sector_bits) old
              (behaves.bytes card sector) (omega (arith, p, q, behaves.size card sector))
          ∙ tests here (digit value) (bit_of old (k % sector_bits))
          ∙ ap
              (λ (t : ℕ).
                if leb at k && ltb k next
                then digit value
                else bit_of (read card (start + t)).1 (k % sector_bits))
              (sym here))
    | inr elsewhere ↦
        (let apart : at / sector_bits ≢ k / sector_bits = ground (arith, elsewhere) in
          ap (λ t. bit_of t (k % sector_bits))
            (behaves.other card sector (start + k / sector_bits)
              (mark_bits value (next - at) from old) (λ e. apart (omega (arith, e))))
          ∙ outside apart (digit value) (bitmap_bit (read card) start k))
  ]
    where
      sector : ℕ
      sector = start + at / sector_bits

      from : ℕ
      from = at - at / sector_bits * sector_bits

      old : List ℕ
      old = (read card sector).1

      kept :
          All IsByte (mark_bits value (next - at) from old)
          × (length (mark_bits value (next - at) from old) ≡ length old)
      kept = mark_bits-All value (next - at) from old (behaves.bytes card sector)

      tests :
          k / sector_bits ≡ at / sector_bits
          → (v o : ℕ)
          → (if leb from (k % sector_bits) && ltb (k % sector_bits) (from + (next - at))
              then v
              else o)
            ≡ (if leb at k && ltb k next then v else o)
      tests here v o = ground (arith, here, p, q)

      outside :
          at / sector_bits ≢ k / sector_bits
          → (v o : ℕ) → o ≡ (if leb at k && ltb k next then v else o)
      outside apart v o = ground (arith, apart, p, q)

  -- Where a round of the loop gets to.
  abbrev next_of : (at stop : ℕ) → ℕ
  next_of at stop = max at (min stop (u32 (at / sector_bits * sector_bits + sector_bits)))

  mark_loop_step :
      (fuel at stop : ℕ) (value : Bool) (card : K)
      → ltb at stop ≡ true
      → mark_loop read write (suc fuel) start at stop value card
        ≡ mark_loop read write fuel start
            (next_of at stop)
            stop
            value
            (write card (u32 (start + at / sector_bits)) (
              mark_bits value
                (next_of at stop - at)
                (at - at / sector_bits * sector_bits)
                (read card (u32 (start + at / sector_bits))).1)).1
  unfolding mark_loop
  mark_loop_step fuel at stop value card more =
      let sector = u32 (start + at / sector_bits) in
      let read_ok : ((read card sector).0 == 0) ≡ true =
        (==_iff _ _).1 (behaves.reads card sector) in
      let buf =
        mark_bits value (next_of at stop - at) (at - at / sector_bits * sector_bits)
          (read card sector).1 in
      let write_ok : ((write card sector buf).0 == 0) ≡ true =
        (==_iff _ _).1 (behaves.writes card sector buf) in
      rw (mark_loop, more, read_ok, write_ok) refl

  -- A round within the first 2 ^ 32 - sector_bits bits.
  mark_loop-round :
      (fuel at stop : ℕ) (value : Bool) (card : K)
      → ltb at stop ≡ true
      → stop ≤ 2 ^ 32 - sector_bits
      → u32 (start + at / sector_bits) ≡ start + at / sector_bits
      → mark_loop read write (suc fuel) start at stop value card
        ≡ mark_loop read write fuel start
            (min stop (at / sector_bits * sector_bits + sector_bits))
            stop
            value
            (round at (min stop (at / sector_bits * sector_bits + sector_bits)) value card)
  mark_loop-round fuel at stop value card more low e =
      let here = ltb→lt at stop more in
      let next : next_of at stop ≡ min stop (at / sector_bits * sector_bits + sector_bits) =
        omega (arith, here, low) in
      mark_loop_step fuel at stop value card more
      ∙ ap
          (λ (t : ℕ).
            mark_loop read write fuel start (next_of at stop) stop value
              (write card t (
                mark_bits value (next_of at stop - at) (at - at / sector_bits * sector_bits)
                  (read card t).1)).1)
          e
      ∙ ap (λ (t : ℕ). mark_loop read write fuel start t stop value (round at t value card)) next

  -- Marking that would go on behind them never ends.
  mark_loop-stuck :
      (fuel at stop : ℕ) (value : Bool) (card : K)
      → at < stop
      → 2 ^ 32 - sector_bits < stop
      → stop < 2 ^ 32
      → (mark_loop read write fuel start at stop value card).0 ≡ fuel_out
  unfolding mark_loop
  mark_loop-stuck zero at stop value card here high word =
      let more : ltb at stop ≡ true = ground (arith, here) in rw (mark_loop, more) refl
  mark_loop-stuck (suc fuel) at stop value card here high word =
      let more : ltb at stop ≡ true = ground (arith, here) in
      rw (mark_loop_step fuel at stop value card more) (
        mark_loop-stuck fuel (next_of at stop) stop value _ (omega (arith, here, high, word)) high
          word)

  mark_loop_lem :
      (fuel at stop k : ℕ) (value : Bool) (card : K)
      → stop ≤ at + fuel
      → stop ≤ 2 ^ 32 - sector_bits
      → start + stop / sector_bits < 2 ^ 32
      → ((mark_loop read write fuel start at stop value card).0 ≡ 0)
        × (bitmap_bit (read (mark_loop read write fuel start at stop value card).1) start k
            ≡ (if leb at k && ltb k stop then digit value else bitmap_bit (read card) start k))
  unfolding mark_loop
  mark_loop_lem zero at stop k value card enough low room =
      let done : ltb at stop ≡ false = ground (arith, enough) in
      rw (mark_loop, done) (refl, ground (arith, enough))
  mark_loop_lem (suc fuel) at stop k value card enough low room = elim (Bool-cases (ltb at stop)) [
    | inr done ↦ rw (mark_loop, done) (refl, ground (arith, done))
    | inl more ↦
        (let here = ltb→lt at stop more in
          let next = min stop (at / sector_bits * sector_bits + sector_bits) in
          let sector : u32 (start + at / sector_bits) ≡ start + at / sector_bits =
            omega (arith, here, room) in
          let card' = round at next value card in
          let rest =
            mark_loop_lem fuel next stop k value card' (omega (arith, here, enough)) low room in
          rw (mark_loop-round fuel at stop value card more low sector) (
            rest.0,
            rest.1
                ∙ ap (λ t. if leb next k && ltb k stop then digit value else t)
                    (sector_marked at next k value card (omega (arith, here)) (omega arith))
                ∙ join_ranges at next stop k (omega (arith, here)) (omega arith) (digit value)
                    (bitmap_bit (read card) start k),
          ))
  ]
    where
      join_ranges :
          (at next stop k : ℕ)
          → at < next
          → next ≤ stop
          → (v o : ℕ)
          → (if leb next k && ltb k stop then v else if leb at k && ltb k next then v else o)
            ≡ (if leb at k && ltb k stop then v else o)
      join_ranges at next stop k p q v o = ground (arith, p, q)

  -- On a card that behaves, bitmap_mark succeeds, and the bits of the clusters from `first` to
  -- first + n - 1 have the value; every other bit of the bitmap is as it was. `first` is 2 at
  -- least, the bits that are marked are among the first 2 ^ 32 - 4096 of the bitmap, and its
  -- sectors have numbers of 32 bits.
  pub bitmap_mark_lem :
      (first n k : ℕ) (value : Bool) (card : K)
      → 2 ≤ first
      → first - 2 + n ≤ 2 ^ 32 - sector_bits
      → start + (first + n) / sector_bits < 2 ^ 32
      → ((bitmap_mark read write start first n value card).0 ≡ 0)
        × (bitmap_bit (read (bitmap_mark read write start first n value card).1) start k ≡ (
            if leb first (k + 2) && ltb (k + 2) (first + n)
            then digit value
            else bitmap_bit (read card) start k))
  unfolding bitmap_mark
  bitmap_mark_lem first n k value card p q r =
      let at : sub32 first 2 ≡ first - 2 = omega (arith, p, q) in
      let stop : u32 (first - 2 + n) ≡ first - 2 + n = omega (arith, q) in
      let marked =
        mark_loop_lem (suc n) (first - 2) (first - 2 + n) k value card (omega arith) q
          (omega (arith, r)) in
      rw (at, stop) (marked.0, marked.1 ∙ shifted (digit value) (bitmap_bit (read card) start k))
    where
      shifted :
          (v o : ℕ)
          → (if leb (first - 2) k && ltb k (first - 2 + n) then v else o)
            ≡ (if leb first (k + 2) && ltb (k + 2) (first + n) then v else o)
      shifted v o = ground (arith, p)

  -- Where bitmap_mark succeeds, the bits that it marked are among the first 2 ^ 32 - 4096.
  pub bitmap_mark-low :
      (first n : ℕ) (value : Bool) (card : K)
      → 2 ≤ first
      → first + n < 2 ^ 32
      → 0 < n
      → (bitmap_mark read write start first n value card).0 ≡ 0
      → first - 2 + n ≤ 2 ^ 32 - sector_bits
  unfolding bitmap_mark
  bitmap_mark-low first n value card p q r done =
      elim (Bool-cases (leb (first - 2 + n) (2 ^ 32 - sector_bits))) [
        | inl low ↦ ground (arith, low)
        | inr high ↦
            (let at : sub32 first 2 ≡ first - 2 = omega (arith, p, q) in
              let stop : u32 (first - 2 + n) ≡ first - 2 + n = omega (arith, q) in
              let stuck =
                mark_loop-stuck (suc n) (first - 2) (first - 2 + n) value card (omega (arith, r))
                  (ground (arith, high)) (omega (arith, q)) in
              let ended = rw (at, stop) at done in absurd (omega (arith, stuck, ended)))
      ]
