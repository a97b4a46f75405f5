-- ===== src/Vm/Memory/RoundTrip.antt =====
-- What a store leaves in its cell and its memory, and what a fetch finds there.
use native.Mathlib.Nat.{mul-lt-mul_of_pos_right, mul-le-mul_left, mod-lt, mod-eq_of_lt}
use lite_forth.Common.{
  Bool-cases, inl, inr, ◌==◌, ==_iff, if◌then◌else◌, ℕ, ◌+◌, ◌-◌, ◌*◌, ◌/◌, ◌%◌, ◌^◌, ◌≤◌, ◌<◌, ◌≡◌,
  ◌≢◌, ◌∙◌, refl, ap, arith, IsWord, u32, pow_add, pow_pos, join, join-field, join-low, join-high,
  put_field,
}
use lite_forth.Vm.Memory.{
  Memory, page_of, cell_of, bitfield_size, bshift_of, cell_at, write_cell, field_get, field_set,
  vm_fetch, vm_store,
}

-- The data that an address can hold: all of it in a whole cell, the low bits in a slice.
abbrev pub cut : ℕ → ℕ → ℕ
cut addr v = if bitfield_size addr == 0 then v else v % 2 ^ bitfield_size addr

-- A number of w digits shifted left by p stays a word.
shifted-lt : (p w x : ℕ) → p + w ≤ 32 → x < 2 ^ w → x * 2 ^ p < 2 ^ 32
shifted-lt p w x h small =
    let whole : w + p + (32 - (p + w)) ≡ 32 = omega arith in
    omega (
      arith,
      ap (λ (t : ℕ). 2 ^ t) whole,
      pow_add (w + p) (32 - (p + w)),
      pow_add w p,
      mul-lt-mul_of_pos_right small (pow_pos p),
      mul-le-mul_left (2 ^ (w + p)) (pow_pos (32 - (p + w))),
    )

module _ (addr old v : ℕ) (sliced : bitfield_size addr ≢ 0)
    (fits : bshift_of addr + bitfield_size addr ≤ 32) (word : IsWord old) where
  field_set-join :
      field_set addr old v
      ≡ join
          (bshift_of addr)
          (bitfield_size addr)
          (old / 2 ^ bshift_of addr / 2 ^ bitfield_size addr)
          (v % 2 ^ bitfield_size addr)
          (old % 2 ^ bshift_of addr)
  unfolding field_set
  field_set-join =
      let p = bshift_of addr in
      let w = bitfield_size addr in
      let small : v % 2 ^ w < 2 ^ w = mod-lt v (pow_pos w) in
      let value : u32 (v % 2 ^ w * 2 ^ p) ≡ v % 2 ^ w * 2 ^ p =
        mod-eq_of_lt (shifted-lt p w (v % 2 ^ w) fits small) in
      let mask : u32 ((2 ^ w - 1) * 2 ^ p) ≡ (2 ^ w - 1) * 2 ^ p =
        mod-eq_of_lt (shifted-lt p w (2 ^ w - 1) fits (omega (arith, pow_pos w))) in
      rw
        (value, mask, put_field p w (32 - (p + w)) old (v % 2 ^ w) (omega (arith, fits)) word small)
        (ground (arith, sliced))

  -- The slice then holds the low bits of the value, and the bits below and above it are as before.
  pub field_set_lem :
      (field_get addr (field_set addr old v) ≡ v % 2 ^ bitfield_size addr)
      × (field_set addr old v % 2 ^ bshift_of addr ≡ old % 2 ^ bshift_of addr)
      × (field_set addr old v / 2 ^ bshift_of addr / 2 ^ bitfield_size addr
          ≡ old / 2 ^ bshift_of addr / 2 ^ bitfield_size addr)
  field_set_lem =
      let p = bshift_of addr in
      let w = bitfield_size addr in
      let small : v % 2 ^ w < 2 ^ w = mod-lt v (pow_pos w) in
      let low : old % 2 ^ p < 2 ^ p = mod-lt old (pow_pos p) in
      let high = old / 2 ^ p / 2 ^ w in
      rw field_set-join (
        ground (arith, sliced, join-field p w high (v % 2 ^ w) (old % 2 ^ p) low small),
        join-low p w high (v % 2 ^ w) (old % 2 ^ p) low,
        join-high p w high (v % 2 ^ w) (old % 2 ^ p) low small,
      )

-- The memory below a page's read limit and at or above its write-protect limit.
pub record IsWritable (m : Memory) (addr : ℕ) : Type 0 where
  pub readable : cell_of addr < m.rd_limit (page_of addr)
  pub unprotected : m.wp_limit (page_of addr) ≤ cell_of addr

vm_store-writable :
    (m : Memory) (addr v : ℕ)
    → IsWritable m addr
    → vm_store m addr v ≡ (0, write_cell m addr (field_set addr (cell_at m addr) v))
unfolding vm_store
vm_store-writable m addr v h = ground (arith, h.readable, h.unprotected)

vm_fetch-readable :
    (m : Memory) (addr : ℕ)
    → cell_of addr < m.rd_limit (page_of addr)
    → vm_fetch m addr ≡ (0, field_get addr (cell_at m addr))
unfolding vm_fetch
vm_fetch-readable m addr h = ground (arith, h)

cell_at-write_cell : (m : Memory) (addr v : ℕ) → cell_at (write_cell m addr v) addr ≡ v
cell_at-write_cell m addr v = ground arith

vm_fetch-write_cell :
    (m : Memory) (addr v : ℕ)
    → IsWritable m addr
    → vm_fetch (write_cell m addr v) addr ≡ (0, field_get addr v)
vm_fetch-write_cell m addr v h =
    vm_fetch-readable (write_cell m addr v) addr h.readable
    ∙ ap (λ t. (0, field_get addr t)) (cell_at-write_cell m addr v)

field_set-whole :
    (addr old v : ℕ) → bitfield_size addr ≡ 0 → field_get addr (field_set addr old v) ≡ v
unfolding field_set
field_set-whole addr old v h = ground (arith, h)

field_get-field_set :
    (addr old v : ℕ)
    → bshift_of addr + bitfield_size addr ≤ 32
    → IsWord old
    → field_get addr (field_set addr old v) ≡ cut addr v
field_get-field_set addr old v fits word = elim (Bool-cases (bitfield_size addr == 0)) [
  | inl whole ↦
      rw (field_set-whole addr old v ((==_iff (bitfield_size addr) 0).0 whole), whole) refl
  | inr sliced ↦ rw ((field_set_lem addr old v (ground arith) fits word).0, sliced) refl
]

-- In memory that the limits let be written, a store to a whole cell, or to a slice that fits its
-- cell, succeeds. A fetch from the same address then succeeds and gives the value, cut to the
-- slice's width.
pub vm_fetch-vm_store :
    (m : Memory) (addr v : ℕ)
    → IsWord (cell_at m addr)
    → IsWritable m addr
    → bshift_of addr + bitfield_size addr ≤ 32
    → ((vm_store m addr v).0 ≡ 0) × (vm_fetch (vm_store m addr v).1 addr ≡ (0, cut addr v))
vm_fetch-vm_store m addr v word h fits =
    rw (vm_store-writable m addr v h, vm_fetch-write_cell m addr _ h)
      (refl, ap (λ t. (0, t)) (field_get-field_set addr (cell_at m addr) v fits word))
