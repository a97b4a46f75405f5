-- ===== src/Comp.antt =====
-- The compiler's core, src/comp.c: literals, calls, micro-ops packed into groups, and exits. What it
-- writes to is a parameter, `CodeSpace`; Comp/Target is the one in memory.
pub mod Target
pub mod Run
pub mod Literals
pub mod Negative
pub mod Calls
pub mod Jumps
pub mod Pack
pub mod Exits
pub mod Api
use lite_forth.Common.{
  ℕ, zero, suc, ◌+◌, ◌-◌, ◌*◌, ◌/◌, ◌%◌, ◌^◌, Bool, true, false, not, ◌&&◌, ◌||◌, List, [], ◌∷◌,
  bit_and, bit_or, ltb, leb, ◌==◌, if◌then◌else◌, not32,
}
use lite_forth.Slice.{vm_field_plus}

-- vm_labels.h
abbrev pub vm_uops : ℕ
vm_uops = 0x8000

abbrev pub vm_ret : ℕ
vm_ret = 0x4000

abbrev pub vmi_jump : ℕ
vmi_jump = 0 * 2 ^ 13

abbrev pub vmi_call : ℕ
vmi_call = 1 * 2 ^ 13

abbrev pub vmi_lit : ℕ
vmi_lit = 2 * 2 ^ 13

abbrev pub vmi_other : ℕ
vmi_other = 3 * 2 ^ 13

abbrev pub vmi_pfx : ℕ
vmi_pfx = vmi_other + 12 * 2 ^ 9

abbrev pub vmi_pfx1 : ℕ
vmi_pfx1 = vmi_other + 13 * 2 ^ 9

-- cpFetch, commaCode, vmFetch and vmStore: the ior comes first.
pub record CodeSpace (S : Type 0) : Type 0 where
  pub cp_fetch : S → ℕ
  pub comma_code : ℕ → S → ℕ × S
  pub fetch : ℕ → S → ℕ × ℕ
  pub store : ℕ → ℕ → S → ℕ × S

-- `slot`, `instruction` and `lastcall`. `slot_10` is `slot + 10`, since `slot` goes down to -10.
pub record Compiler (S : Type 0) : Type 0 where
  pub slot_10 : ℕ
  pub instruction : ℕ
  pub lastcall : ℕ
  pub code : S

-- SLOT0_POSITION, with the same 10 added.
abbrev pub slot0_10 : ℕ
slot0_10 = 19

-- The micro-ops that touch the return stack, and the test for them in a group's three slots.
abbrev pub is_return_op : ℕ → Bool
is_return_op uop = (uop == 0x07) || (uop == 0x0E) || (uop == 0x0F) || (uop == 0x08)

unfoldable pub uses_ret_stack : ℕ → Bool
uses_ret_stack inst =
    is_return_op (inst / 2 ^ 9 % 32)
    || is_return_op (inst / 2 ^ 4 % 32)
    || is_return_op (inst % 2 ^ 4)

-- A prefix with the low 10 bits of a number: the tenth selects the instruction.
unfoldable pub pfx_word : ℕ → ℕ
pfx_word x = if x / 2 ^ 9 % 2 == 0 then bit_or vmi_pfx (x % 2 ^ 9) else bit_or vmi_pfx1 (x % 2 ^ 9)

-- The loop of CompUlit that pushes prefixes; its stack, from the top, as a list.
unfoldable pub push_prefixes : ℕ → ℕ → List ℕ → List ℕ
push_prefixes zero x ws = ws
push_prefixes (suc fuel) x ws =
    let rest = push_prefixes fuel (x / 2 ^ 10) (pfx_word x ∷ ws) in if x == 0 then ws else rest

module _ {S : Type 0} where
  abbrev pub fresh_slots : Compiler S → Compiler S
  fresh_slots c = record c { instruction = 0; slot_10 = slot0_10 }

  -- `instruction |= uop << slot; slot -= 5`, from slot 0 on.
  abbrev pub put_uop : ℕ → Compiler S → Compiler S
  put_uop uop c = record c {
    instruction = bit_or c.instruction (uop * 2 ^ (c.slot_10 - 10));
    slot_10 = c.slot_10 - 5;
  }

  module _ (space : CodeSpace S) where
    open space use {cp_fetch, comma_code, fetch, store}

    abbrev pub emit : ℕ → Compiler S → ℕ × Compiler S
    emit w c = let (ior, s) = comma_code w c.code in (ior, record c { code = s })

    unfoldable pub new_inst : Compiler S → Compiler S
    new_inst c =
        let flushed =
          if c.slot_10 == slot0_10 then c else (emit (bit_or vm_uops c.instruction) c).1 in
        record (fresh_slots flushed) { lastcall = 0 }

    -- CompUop once there is room.
    abbrev pub place_uop : ℕ → Compiler S → ℕ × Compiler S
    place_uop uop c =
        let (ior, flushed) = emit (bit_or vm_uops c.instruction) c in
        if ltb c.slot_10 10
        then (if ltb uop 16
            then (0, put_uop uop (record c { slot_10 = 10 }))
            else (ior, put_uop uop (fresh_slots flushed)))
        else (0, put_uop uop c)

    unfoldable pub comp_uop : ℕ → Compiler S → ℕ × Compiler S
    comp_uop uop c = place_uop (uop % 32) (if ltb c.slot_10 6 then new_inst c else c)

    -- The words popped one by one, until one can't be compiled.
    unfoldable pub comma_all : List ℕ → Compiler S → ℕ × Compiler S
    comma_all [] c = (0, c)
    comma_all (w ∷ ws) c =
        let r = emit w c in elim (r.0 == 0) [ true ↦ comma_all ws r.1 | false ↦ r ]

    unfoldable pub comp_ulit : ℕ → Compiler S → ℕ × Compiler S
    comp_ulit x c =
        comma_all (push_prefixes 4 (x / 2 ^ 13) (bit_or vmi_lit (x % 2 ^ 13) ∷ [])) (new_inst c)

    -- `x` is an int32_t's pattern; CompUlit's ior is not looked at for a negative one.
    unfoldable pub lf_compile_lit : ℕ → Compiler S → ℕ × Compiler S
    lf_compile_lit x c =
        if ltb x (2 ^ 31) then comp_ulit x c else comp_uop 0x01 (comp_ulit (not32 x) c).1

    unfoldable pub comp_call : ℕ → Compiler S → ℕ × Compiler S
    comp_call xt c =
        let flushed = new_inst c in
        let target = xt % 2 ^ 23 in
        let extended =
          if ltb target (2 ^ 13) then flushed else (emit (vmi_pfx + target / 2 ^ 9) flushed).1 in
        let marked =
          if bit_and xt 0x10000000 == 0
          then record extended { lastcall = cp_fetch extended.code }
          else extended in
        emit (vmi_call + target % 2 ^ 13) marked

    -- The end of CompExit, at `ex`.
    abbrev pub exit_group : Compiler S → ℕ × Compiler S
    exit_group c = (
      0,
      new_inst
          (record c { instruction = bit_or c.instruction (bit_or vm_uops vm_ret); slot_10 = 0 }),
    )

    unfoldable pub comp_exit : Compiler S → ℕ × Compiler S
    comp_exit c =
        let call_inst = (fetch c.lastcall c.code).1 in
        let (ior, s) = store c.lastcall (bit_and call_inst (not32 vmi_call)) c.code in
        if not (c.slot_10 == slot0_10)
        then exit_group (if uses_ret_stack c.instruction then new_inst c else c)
        else (if not (c.lastcall == 0)
            then (ior, record c { code = s; lastcall = 0 })
            else exit_group c)

    unfoldable pub store_jump : ℕ → ℕ → S → ℕ × S
    store_jump slot pc s =
        let inst = if pc / 2 ^ 22 % 2 == 0 then vmi_pfx else vmi_pfx1 in
        let r = store slot (inst + pc / 2 ^ 13 % 2 ^ 9) s in
        if leb (2 ^ 13 - 1) pc
        then (if r.0 == 0 then store (vm_field_plus slot) (vmi_jump + pc % 2 ^ 13) r.1 else r)
        else store slot (vmi_jump + pc % 2 ^ 13) s

    -- lfCompileXT, for an xt with W_PRIMITIVE, W_MACRO and W_WIDE_INST.
    abbrev pub third_uop : ℕ → ℕ × Compiler S → ℕ × Compiler S
    third_uop w (ior, c) = (ior, if w % 2 ^ 4 == 0 then c else (comp_uop (w % 2 ^ 4) c).1)

    abbrev pub after_first : ℕ → ℕ × Compiler S → ℕ × Compiler S
    after_first w (ior, c) =
        if ior == 0
        then (if bit_and w 0x40000000 == 0 then (0, c) else third_uop w (comp_uop (w / 2 ^ 4) c))
        else (ior, c)

    unfoldable pub lf_compile_xt : ℕ → Compiler S → ℕ × Compiler S
    lf_compile_xt w c =
        if bit_and w 0x80000000 == 0
        then comp_call w c
        else (if bit_and w 0x20000000 == 0
            then after_first w (comp_uop (w / 2 ^ 9) c)
            else emit w (new_inst c))
