-- ===== src/Exfat/Write/Bits.antt =====
-- The bits of a sector of the bitmap, and what bitmap_mark's inner loop does to them.
use lite_forth.Common.{
  all_below, all_below-true, and_left, and_right, ℕ, zero, suc, ◌+◌, ◌-◌, ◌*◌, ◌/◌, ◌%◌, ◌^◌, ◌≤◌,
  ◌<◌, ◌≡◌, refl, ap, ◌∙◌, arith, Bool, true, false, ◌&&◌, List, [], ◌∷◌, bit_and, bit_or, ltb, leb,
  ltb→lt, ◌==◌, ==_iff, if◌then◌else◌, get_or, set, length, All, get_or-All, Bool-cases, inl, inr,
}
use lite_forth.Exfat.{bit}
use lite_forth.Exfat.Write.{mark_bits}

-- A bit as a number.
abbrev pub digit : Bool → ℕ
digit value = if value then 1 else 0

-- A byte with bit j set or cleared.
abbrev pub marked : Bool → ℕ → ℕ → ℕ
marked value old j = if value then bit_or old (2 ^ j) else bit_and old (255 - 2 ^ j)

abbrev table : Bool → Bool
table value = all_below 8 (λ j. all_below 8 (λ m. all_below 256 (λ b.
    (bit (marked value b j) m == (if m == j then digit value else bit b m))
    && ltb (marked value b j) 256)))

marked_row :
    (value : Bool)
    → table value ≡ true
    → (b j m : ℕ) → b < 256
    → j < 8
    → m < 8
    → ((bit (marked value b j) m == (if m == j then digit value else bit b m))
        && ltb (marked value b j) 256)
      ≡ true
marked_row value t b j m p q r =
    all_below-true 256 _ b (all_below-true 8 _ m (all_below-true 8 _ j t q) r) p

tables : (value : Bool) → table value ≡ true
unfolding all_below
tables true = refl
tables false = refl

module _ (value : Bool) (b j m : ℕ) (p : b < 256) (q : j < 8) (r : m < 8) where
  pub bit-marked : bit (marked value b j) m ≡ (if m == j then digit value else bit b m)
  bit-marked = (==_iff _ _).0 (and_left _ _ (marked_row value (tables value) b j m p q r))

  pub marked-lt : marked value b j < 256
  marked-lt = ltb→lt _ _ (and_right _ _ (marked_row value (tables value) b j m p q r))

-- Bit k of a buffer.
abbrev pub bit_of : List ℕ → ℕ → ℕ
bit_of buf k = bit (get_or buf (k / 8) 0) (k % 8)

abbrev pub IsByte : ℕ → Type 0
IsByte b = b < 256

pub length-set : (buf : List ℕ) (i v : ℕ) → length (set buf i v) ≡ length buf
length-set [] i v = refl
length-set (x ∷ xs) zero v = refl
length-set (x ∷ xs) (suc i) v = ap suc (length-set xs i v)

pub set-All : (buf : List ℕ) (i v : ℕ) → All IsByte buf → IsByte v → All IsByte (set buf i v)
set-All [] i v h p = tt
set-All (x ∷ xs) zero v h p = (p, h.1)
set-All (x ∷ xs) (suc i) v h p = (h.0, set-All xs i v h.1 p)

get_or-set :
    (buf : List ℕ) (i j v : ℕ)
    → i < length buf
    → get_or (set buf i v) j 0 ≡ (if j == i then v else get_or buf j 0)
get_or-set [] i j v h = absurd (omega arith)
get_or-set (x ∷ xs) zero zero v h = refl
get_or-set (x ∷ xs) zero (suc j) v h = ground arith
get_or-set (x ∷ xs) (suc i) zero v h = ground arith
get_or-set (x ∷ xs) (suc i) (suc j) v h = ground (arith, get_or-set xs i j v (omega arith))

-- One bit marked.
mark_one : Bool → ℕ → List ℕ → List ℕ
mark_one value i b = set b (i / 8) (marked value (get_or b (i / 8) 0) (i % 8))

bit_of-mark_one :
    (value : Bool) (i k : ℕ) (b : List ℕ)
    → All IsByte b
    → i < 8 * length b
    → bit_of (mark_one value i b) k ≡ (if k == i then digit value else bit_of b k)
unfolding mark_one
bit_of-mark_one value i k b bytes room =
    let old = get_or b (i / 8) 0 in
    let byte : old < 256 = get_or-All IsByte b (i / 8) 0 bytes (omega arith) in
    let put = get_or-set b (i / 8) (k / 8) (marked value old (i % 8)) (omega (arith, room)) in
    elim (Bool-cases (k / 8 == i / 8)) [
      | inr other ↦
          (let differ : (k == i) ≡ false = ground (arith, other) in rw (put, other, differ) refl)
      | inl same ↦
          (let here : k / 8 ≡ i / 8 = (==_iff _ _).0 same in
            let test : (k % 8 == i % 8) ≡ (k == i) = ground (arith, here) in
            rw (put, same, here)
              (bit-marked value old (i % 8) (k % 8) byte (omega arith) (omega arith)
                ∙ ap (λ t. if t then digit value else bit old (k % 8)) test))
    ]

mark_one-All : (value : Bool) (i : ℕ) (b : List ℕ) → All IsByte b → All IsByte (mark_one value i b)
unfolding mark_one
mark_one-All value i b bytes = set-All b (i / 8) _ bytes (
    marked-lt value (get_or b (i / 8) 0) (i % 8) 0
      (get_or-All IsByte b (i / 8) 0 bytes (omega arith)) (omega arith) (omega arith))

length-mark_one : (value : Bool) (i : ℕ) (b : List ℕ) → length (mark_one value i b) ≡ length b
unfolding mark_one
length-mark_one value i b = length-set b (i / 8) (marked value (get_or b (i / 8) 0) (i % 8))

-- The bits from i on take the value, and the others stay.
pub bit_of-mark_bits :
    (value : Bool) (left i k : ℕ) (b : List ℕ)
    → All IsByte b
    → i + left ≤ 8 * length b
    → bit_of (mark_bits value left i b) k
      ≡ (if leb i k && ltb k (i + left) then digit value else bit_of b k)
unfolding mark_bits mark_one
bit_of-mark_bits value zero i k b bytes room = ground arith
bit_of-mark_bits value (suc left) i k b bytes room =
    bit_of-mark_bits value left (i + 1) k (mark_one value i b) (mark_one-All value i b bytes)
      (omega (arith, room, length-mark_one value i b))
    ∙ ap (λ t. if leb (i + 1) k && ltb k (i + 1 + left) then digit value else t)
        (bit_of-mark_one value i k b bytes (omega (arith, room)))
    ∙ join_ranges (digit value) (bit_of b k)
  where
    join_ranges :
        (v old : ℕ)
        → (if leb (i + 1) k && ltb k (i + 1 + left) then v else if k == i then v else old)
          ≡ (if leb i k && ltb k (i + suc left) then v else old)
    join_ranges v old = ground arith

pub mark_bits-All :
    (value : Bool) (left i : ℕ) (b : List ℕ)
    → All IsByte b
    → All IsByte (mark_bits value left i b) × (length (mark_bits value left i b) ≡ length b)
unfolding mark_bits mark_one
mark_bits-All value zero i b bytes = (bytes, refl)
mark_bits-All value (suc left) i b bytes =
    let rest =
      mark_bits-All value left (i + 1) (mark_one value i b) (mark_one-All value i b bytes) in
    (rest.0, rest.1 ∙ length-mark_one value i b)
