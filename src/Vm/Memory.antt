-- ===== src/Vm/Memory.antt =====
-- The machine's memory, with its limits: vmFetch, vmStore and vmGuarded of src/vm.c.
pub mod RoundTrip
pub mod Limits
use lite_forth.Common.{
  ℕ, ◌+◌, ◌-◌, ◌*◌, ◌/◌, ◌%◌, ◌^◌, List, [], ◌∷◌, ◌||◌, bit_and, bit_or, ltb, leb, ◌==◌,
  if◌then◌else◌, update, u32, not32, neg32,
}

abbrev pub log2_pages : ℕ
log2_pages = 3

abbrev pub mem_pages : ℕ
mem_pages = 2 ^ log2_pages

-- errcodes.h
abbrev pub invalid_address : ℕ
invalid_address = neg32 9

abbrev pub write_protected : ℕ
write_protected = neg32 20

-- VM_IO_READ and VM_IO_WRITE
abbrev pub io_read : ℕ
io_read = 1

abbrev pub io_write : ℕ
io_write = 2

-- `vm_io_range`
pub record IoRange : Type 0 where
  pub first : ℕ
  pub end : ℕ
  pub flags : ℕ

-- The arrays that vm.h declares, by page. `cells page i` is `vm_memory[page][i]`.
pub record Memory : Type 0 where
  pub cells : ℕ → ℕ → ℕ
  pub rd_limit : ℕ → ℕ
  pub wp_limit : ℕ → ℕ
  pub executable : ℕ → ℕ
  pub io_page : ℕ
  pub io_ranges : List IoRange

-- The page and the cell of the page that an address names, and its slice fields.
abbrev pub page_of : ℕ → ℕ
page_of addr = addr / 2 ^ (22 - log2_pages) % mem_pages

abbrev pub cell_of : ℕ → ℕ
cell_of addr = addr % 2 ^ (22 - log2_pages)

abbrev pub bitfield_size : ℕ → ℕ
bitfield_size addr = addr / 2 ^ 27

abbrev pub bshift_of : ℕ → ℕ
bshift_of addr = addr / 2 ^ 22 % 32

-- The walk over the allowlist, which an entry with end 0 ends.
unfoldable pub scan_ranges : ℕ → ℕ → List IoRange → ℕ
scan_ranges a need [] = invalid_address
scan_ranges a need (r ∷ rs) =
    let rest = scan_ranges a need rs in
    if r.end == 0
    then invalid_address
    else (if leb r.end a || ltb a r.first
        then rest
        else (if bit_and r.flags need == 0
            then (if need == io_write then write_protected else invalid_address)
            else 0))

unfoldable pub vm_guarded : Memory → ℕ → ℕ → ℕ → ℕ
unfolding scan_ranges
vm_guarded m page a need =
    if page == m.io_page then scan_ranges a need m.io_ranges else invalid_address

-- The bit field that a fetch takes out of a cell.
abbrev pub field_get : ℕ → ℕ → ℕ
field_get addr res =
    if bitfield_size addr == 0 then res else res / 2 ^ bshift_of addr % 2 ^ bitfield_size addr

-- The cell that a store leaves, from the one that it finds.
unfoldable pub field_set : ℕ → ℕ → ℕ → ℕ
field_set addr old v =
    if bitfield_size addr == 0
    then v
    else bit_or (u32 (v % 2 ^ bitfield_size addr * 2 ^ bshift_of addr))
        (bit_and old (not32 (u32 ((2 ^ bitfield_size addr - 1) * 2 ^ bshift_of addr))))

abbrev pub cell_at : Memory → ℕ → ℕ
cell_at m addr = m.cells (page_of addr) (cell_of addr)

-- The ior and the data.
unfoldable pub vm_fetch : Memory → ℕ → ℕ × ℕ
unfolding vm_guarded
vm_fetch m addr =
    if leb (m.rd_limit (page_of addr)) (cell_of addr)
    then (if vm_guarded m (page_of addr) (cell_of addr) io_read == 0
        then (0, field_get addr (cell_at m addr))
        else (vm_guarded m (page_of addr) (cell_of addr) io_read, 0))
    else (0, field_get addr (cell_at m addr))

abbrev pub write_cell : Memory → ℕ → ℕ → Memory
write_cell m addr v = record m {
  cells = update m.cells (page_of addr) (update (m.cells (page_of addr)) (cell_of addr) v);
}

unfoldable pub vm_store : Memory → ℕ → ℕ → ℕ × Memory
unfolding vm_guarded field_set
vm_store m addr v =
    let stored = write_cell m addr (field_set addr (cell_at m addr) v) in
    if leb (m.rd_limit (page_of addr)) (cell_of addr)
    then (if vm_guarded m (page_of addr) (cell_of addr) io_write == 0
        then (0, stored)
        else (vm_guarded m (page_of addr) (cell_of addr) io_write, m))
    else (if ltb (cell_of addr) (m.wp_limit (page_of addr))
        then (write_protected, m)
        else (0, stored))
