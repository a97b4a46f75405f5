-- ===== src/Vm/Micro.antt =====
-- The 32 micro-ops: VMU_* of src/vm_labels.h, and the switch on them in vmExec (src/vm.c).
use lite_forth.Common.{
  ℕ, ◌+◌, ◌-◌, ◌*◌, ◌/◌, ◌%◌, ◌^◌, List, [], ◌∷◌, bit_and, bit_or, bit_xor, ltb, ◌==◌,
  if◌then◌else◌, get_or, update, u32, add32, not32,
}
use lite_forth.Slice.{vm_field_plus}
use lite_forth.Vm.State.{VmState, nos, ddup, ddrop, nip, rdrop, dpush, rpush}
use lite_forth.Vm.Memory.{Memory, vm_fetch, vm_store}

pub data Uop : Type 0 where
  nop inv over a_store xor plus and push : Uop
  unext two_star dup drop fetch_a fetch_a_plus r_fetch pop : Uop
  two_div_c two_div fetch_a_sign px_store store_a store_a_plus store_b store_b_plus : Uop
  swap plus_star b_fetch b_store fetch_b fetch_b_plus a_fetch cy_fetch : Uop

-- In the order of their codes.
abbrev pub uops : List Uop
uops =
    nop ∷ inv ∷ over ∷ a_store ∷ xor ∷ plus ∷ and ∷ push ∷ unext ∷ two_star ∷ dup ∷ drop ∷ fetch_a
    ∷ fetch_a_plus ∷ r_fetch ∷ pop ∷ two_div_c ∷ two_div ∷ fetch_a_sign ∷ px_store ∷ store_a
    ∷ store_a_plus ∷ store_b ∷ store_b_plus ∷ swap ∷ plus_star ∷ b_fetch ∷ b_store ∷ fetch_b
    ∷ fetch_b_plus ∷ a_fetch ∷ cy_fetch ∷ []

abbrev pub decode_uop : ℕ → Uop
decode_uop code = get_or uops code nop

-- VMU_PLUS: the carry is the carry out of bit 31.
unfoldable pub plus_op : VmState → VmState
plus_op s =
    let sum = add32 s.t (nos s) in record (nip s) { t = sum; cy = if ltb sum s.t then 1 else 0 }

-- VMU_PLUSSTAR: the adder's inputs are T and N, and its 64-bit sum keeps the carry.
unfoldable pub plus_star_op : VmState → VmState
plus_star_op s =
    let sum = s.t + (if s.a % 2 == 0 then 0 else nos s) in
    record s { t = u32 (sum / 2); a = bit_or (u32 (u32 sum * 2 ^ 31)) (s.a / 2) }

-- VMU_TWODIVC: rotate right through the carry.
unfoldable pub two_div_c_op : VmState → VmState
two_div_c_op s = record s { t = bit_or (u32 (s.cy * 2 ^ 31)) (s.t / 2); cy = s.t % 2 }

-- VMU_FETCHASIGN: a slice's top bit is copied into the bits above it.
sign_extend : ℕ → ℕ → ℕ
sign_extend addr n =
    let sign = 2 ^ (addr / 2 ^ 27 - 1) in
    if addr / 2 ^ 27 == 0
    then n
    else (if bit_and n sign == 0 then n else bit_or n (not32 (sign - 1)))

-- The micro-ops that touch no memory; the others are left alone here. VMU_UNEXT is in Group.
unfoldable pub register_op : Uop → VmState → VmState
unfolding plus_op plus_star_op two_div_c_op
register_op inv s = record s { t = not32 s.t }
register_op over s = dpush (nos s) s
register_op a_store s = record (ddrop s) { a = s.t }
register_op xor s = let d = ddrop s in record d { t = bit_xor d.t s.t }
register_op plus s = plus_op s
register_op and s = let d = ddrop s in record d { t = bit_and d.t s.t }
register_op push s = rpush s.t (ddrop s)
register_op two_star s = record s { t = u32 (s.t * 2) }
register_op dup s = ddup s
register_op drop s = ddrop s
register_op r_fetch s = dpush s.r s
register_op pop s = rdrop (dpush s.r s)
register_op two_div_c s = two_div_c_op s
register_op two_div s = record s { t = bit_or (s.t / 2) (bit_and s.t (2 ^ 31)) }
register_op px_store s = ddrop s
register_op swap s = record s { t = nos s; datastack = update s.datastack s.sp s.t }
register_op plus_star s = plus_star_op s
register_op b_fetch s = dpush s.b s
register_op b_store s = record (ddrop s) { b = s.t }
register_op a_fetch s = dpush s.a s
register_op cy_fetch s = dpush s.cy s
register_op _ s = s

-- What a micro-op returns: the ior (0 unless it failed on memory), the registers and the memory.
pub record Effect : Type 0 where
  pub ior : ℕ
  pub vm : VmState
  pub mem : Memory

abbrev pub fetch_op : ℕ → VmState → Memory → Effect
fetch_op addr s m = let (ior, n) = vm_fetch m addr in record { ior = ior; vm = dpush n s; mem = m }

abbrev pub store_op : ℕ → VmState → Memory → Effect
store_op addr s m =
    let (ior, m') = vm_store m addr s.t in record { ior = ior; vm = ddrop s; mem = m' }

abbrev pub advance_a : Effect → Effect
advance_a e = record e { vm = record e.vm { a = vm_field_plus e.vm.a } }

abbrev pub advance_b : Effect → Effect
advance_b e = record e { vm = record e.vm { b = vm_field_plus e.vm.b } }

unfoldable pub exec_uop : Uop → VmState → Memory → Effect
unfolding register_op sign_extend
exec_uop fetch_a s m = fetch_op s.a s m
exec_uop fetch_a_plus s m = advance_a (fetch_op s.a s m)
exec_uop fetch_a_sign s m =
    let e = fetch_op s.a s m in record e { vm = record e.vm { t = sign_extend s.a e.vm.t } }
exec_uop store_a s m = store_op s.a s m
exec_uop store_a_plus s m = advance_a (store_op s.a s m)
exec_uop store_b s m = store_op s.b s m
exec_uop store_b_plus s m = advance_b (store_op s.b s m)
exec_uop fetch_b s m = fetch_op s.b s m
exec_uop fetch_b_plus s m = advance_b (fetch_op s.b s m)
exec_uop op s m = record { ior = 0; vm = register_op op s; mem = m }
