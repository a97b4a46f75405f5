-- ===== src/Comp/Pack.antt =====
-- CompUop packs micro-ops into groups: the groups hold the micro-ops in their order, and nops.
use lite_forth.Common.{
  ℕ, ◌+◌, ◌*◌, ◌/◌, ◌%◌, ◌^◌, ◌<◌, ◌≡◌, refl, sym, ap, ◌∙◌, arith, List, [], ◌∷◌, ◌++◌, bit_or,
  bit_or-shifted, ◌==◌, true, if◌then◌else◌, Bool-cases, inl, inr, ltb, ltb→lt,
}
use mathlib.Core.List.{append-nil, append_assoc}
use lite_forth.Comp.{Compiler, comp_uop, new_inst, slot0_10, vm_uops}
use lite_forth.Comp.Target.{listing}

-- A micro-op, unless it is a nop.
abbrev pub op : ℕ → List ℕ
op u = if u == 0 then [] else u ∷ []

-- The micro-ops of a group, in the order of its slots.
abbrev pub group_ops : ℕ → List ℕ
group_ops w = op (w / 2 ^ 9 % 32) ++ op (w / 2 ^ 4 % 32) ++ op (w % 2 ^ 4)

-- The micro-ops of a word: of a group, without the return bit, those of its slots. Any other word
-- counts as one that is no micro-op.
abbrev pub word_ops : ℕ → List ℕ
word_ops w = if w / 2 ^ 14 == 2 then group_ops w else (w + 32) ∷ []

unfoldable pub code_ops : List ℕ → List ℕ
code_ops [] = []
code_ops (w ∷ ws) = word_ops w ++ code_ops ws

code_ops-++ : (xs ys : List ℕ) → code_ops (xs ++ ys) ≡ code_ops xs ++ code_ops ys
unfolding code_ops
code_ops-++ [] ys = refl
code_ops-++ (x ∷ xs) ys =
    ap (λ t. word_ops x ++ t) (code_ops-++ xs ys)
    ∙ sym (append_assoc (word_ops x) (code_ops xs) (code_ops ys))

code_ops-snoc : (xs : List ℕ) (w : ℕ) → code_ops (xs ++ (w ∷ [])) ≡ code_ops xs ++ word_ops w
unfolding code_ops
code_ops-snoc xs w = code_ops-++ xs (w ∷ []) ∙ ap (λ t. code_ops xs ++ t) (append-nil (word_ops w))

-- What `slot_10` and `instruction` can be: the slots above `slot` are filled, and those below empty.
pub data Packed : ℕ → ℕ → Type 0 where
  empty : Packed 19 0
  one : (a : ℕ) → a < 32 → Packed 14 (a * 2 ^ 9)
  two : (a b : ℕ) → a < 32 → b < 32 → Packed 9 (a * 2 ^ 9 + b * 2 ^ 4)
  three : (a b d : ℕ) → a < 32 → b < 32 → d < 16 → Packed 5 (a * 2 ^ 9 + b * 2 ^ 4 + d)

-- The micro-ops compiled so far, those of the pending group last.
pub all_ops : Compiler (List ℕ) → List ℕ
all_ops c = code_ops c.code ++ group_ops c.instruction

-- A group's micro-ops, from the numbers in its slots; the bits above them do not count.
group_ops_sum :
    (w a b d : ℕ)
    → a < 32
    → b < 32
    → d < 16
    → w % 2 ^ 14 ≡ a * 2 ^ 9 + b * 2 ^ 4 + d
    → group_ops w ≡ op a ++ op b ++ op d
group_ops_sum w a b d p q r h =
    let first : w / 2 ^ 9 % 32 ≡ a = omega arith in
    let second : w / 2 ^ 4 % 32 ≡ b = omega arith in
    let last : w % 2 ^ 4 ≡ d = omega arith in rw (first, second, last) refl

-- A flushed group is the pending one with a bit above it.
pub flushed_word : (i : ℕ) → i < 2 ^ 14 → bit_or vm_uops i ≡ 2 ^ 15 + i
flushed_word i h = bit_or-shifted 15 1 i (omega arith) (omega arith) ∙ omega arith

abbrev compiler : ℕ → ℕ → ℕ → List ℕ → Compiler (List ℕ)
compiler slot i l ws = record { slot_10 = slot; instruction = i; lastcall = l; code = ws }

-- A step that keeps the groups packed and adds these micro-ops.
pub record Adds (us : List ℕ) (c c' : Compiler (List ℕ)) : Type 0 where
  pub packed : Packed c'.slot_10 c'.instruction
  pub ops : all_ops c' ≡ all_ops c ++ us

-- The first micro-op of a group.
first_op : (u : ℕ) → u < 32 → group_ops (u * 2 ^ 9) ≡ op u
first_op u h =
    group_ops_sum (u * 2 ^ 9) u 0 0 h (omega arith) (omega arith) (omega arith)
    ∙ append-nil (op u ++ [])
    ∙ append-nil (op u)

two_ops : (a b : ℕ) → a < 32 → b < 32 → group_ops (a * 2 ^ 9 + b * 2 ^ 4) ≡ op a ++ op b
two_ops a b p q =
    group_ops_sum (a * 2 ^ 9 + b * 2 ^ 4) a b 0 p q (omega arith) (omega arith)
    ∙ append-nil (op a ++ op b)

third_slot :
    (a b v : ℕ)
    → a < 32
    → b < 32
    → v < 16
    → bit_or (a * 2 ^ 9 + b * 2 ^ 4) (v * 2 ^ 0) ≡ a * 2 ^ 9 + b * 2 ^ 4 + v
third_slot a b v p q h =
    let lined : a * 2 ^ 9 + b * 2 ^ 4 ≡ (a * 32 + b) * 2 ^ 4 = omega arith in
    let plain : v * 2 ^ 0 ≡ v = omega arith in
    rw (lined, plain) (bit_or-shifted 4 (a * 32 + b) v (omega arith) (omega arith))

same_ops : (i : ℕ) → i < 2 ^ 14 → word_ops (2 ^ 15 + i) ≡ group_ops i
same_ops i h =
    let part = λ (w : ℕ) (e : w % 2 ^ 14 ≡ i).
      group_ops_sum w (i / 2 ^ 9) (i / 2 ^ 4 % 32) (i % 2 ^ 4) (omega (arith, h)) (omega arith)
        (omega arith) (omega (arith, e, h)) in
    let group : ((2 ^ 15 + i) / 2 ^ 14 == 2) ≡ true = ground (arith, h) in
    rw group (part (2 ^ 15 + i) (omega arith) ∙ sym (part i (omega arith)))

flush_ops :
    (i : ℕ) (ws : List ℕ)
    → i < 2 ^ 14
    → code_ops (ws ++ (bit_or vm_uops i ∷ [])) ≡ code_ops ws ++ group_ops i
flush_ops i ws h =
    ap (λ t. code_ops (ws ++ (t ∷ []))) (flushed_word i h)
    ∙ code_ops-snoc ws (2 ^ 15 + i)
    ∙ ap (λ t. code_ops ws ++ t) (same_ops i h)

-- A micro-op that does not fit goes into a group of its own, after the pending one.
flushed-Adds :
    (slot i u l l' : ℕ) (ws : List ℕ)
    → u < 32
    → i < 2 ^ 14
    → Adds
        (op u)
        (compiler slot i l ws)
        (compiler 14 (bit_or 0 (u * 2 ^ 9)) l' (ws ++ (bit_or vm_uops i ∷ [])))
unfolding all_ops
flushed-Adds slot i u l l' ws h p =
    let alone : bit_or 0 (u * 2 ^ 9) ≡ u * 2 ^ 9 =
      bit_or-shifted 14 0 (u * 2 ^ 9) (omega arith) (omega arith) ∙ omega arith in
    rw alone (record {
      packed = one u h;
      ops =
          ap (λ t. t ++ group_ops (u * 2 ^ 9)) (flush_ops i ws p)
          ∙ ap (λ t. code_ops ws ++ group_ops i ++ t) (first_op u h);
    })

-- A micro-op that is put into the pending group below the others.
placed-Adds :
    (slot slot' i i' u l : ℕ) (ws : List ℕ)
    → Packed slot' i'
    → group_ops i' ≡ group_ops i ++ op u
    → Adds (op u) (compiler slot i l ws) (compiler slot' i' l ws)
unfolding all_ops
placed-Adds slot slot' i i' u l ws p e = record {
  packed = p;
  ops = ap (λ t. code_ops ws ++ t) e ∙ sym (append_assoc (code_ops ws) (group_ops i) (op u));
}

comp_uop-Adds :
    (slot i l u : ℕ) (ws : List ℕ)
    → Packed slot i
    → Adds (op (u % 32)) (compiler slot i l ws) (comp_uop listing u (compiler slot i l ws)).1
unfolding comp_uop new_inst
comp_uop-Adds _ _ l u ws empty =
    let v = u % 32 in
    let value : bit_or 0 (v * 2 ^ 9) ≡ v * 2 ^ 9 =
      bit_or-shifted 14 0 (v * 2 ^ 9) (omega arith) (omega arith) ∙ omega arith in
    rw value
      (placed-Adds 19 14 0 (v * 2 ^ 9) v l ws (one v (omega arith)) (first_op v (omega arith)))
comp_uop-Adds _ _ l u ws (one a p) =
    let v = u % 32 in
    let value : bit_or (a * 2 ^ 9) (v * 2 ^ 4) ≡ a * 2 ^ 9 + v * 2 ^ 4 =
      bit_or-shifted 9 a (v * 2 ^ 4) (omega arith) (omega arith) in
    rw value (
      placed-Adds 14 9 (a * 2 ^ 9) (a * 2 ^ 9 + v * 2 ^ 4) v l ws (two a v p (omega arith))
        (two_ops a v p (omega arith) ∙ ap (λ t. t ++ op v) (sym (first_op a p))))
comp_uop-Adds _ _ l u ws (two a b p q) = elim (Bool-cases (ltb (u % 32) 16)) [
  | inl narrow ↦
      (let v = u % 32 in
        let value : bit_or (a * 2 ^ 9 + b * 2 ^ 4) (v * 2 ^ 0) ≡ a * 2 ^ 9 + b * 2 ^ 4 + v =
          third_slot a b v p q (ground (arith, narrow)) in
        rw (narrow, value)
          (placed-Adds 9 5 (a * 2 ^ 9 + b * 2 ^ 4) (a * 2 ^ 9 + b * 2 ^ 4 + v) v l ws
            (three a b v p q (ground (arith, narrow)))
            (group_ops_sum (a * 2 ^ 9 + b * 2 ^ 4 + v) a b v p q (ground (arith, narrow))
                (omega (arith, ltb→lt _ _ narrow))
              ∙ ap (λ t. t ++ op v) (sym (two_ops a b p q)))))
  | inr wide ↦
      rw wide (flushed-Adds 9 (a * 2 ^ 9 + b * 2 ^ 4) (u % 32) l l ws (omega arith) (omega arith))
]
comp_uop-Adds _ _ l u ws (three a b d p q r) =
    flushed-Adds 5 (a * 2 ^ 9 + b * 2 ^ 4 + d) (u % 32) l 0 ws (omega arith) (omega arith)

-- CompUop for micro-ops in a row.
pub comp_uops : List ℕ → Compiler (List ℕ) → Compiler (List ℕ)
comp_uops [] c = c
comp_uops (u ∷ us) c = comp_uops us (comp_uop listing u c).1

-- The micro-ops of a list that are not nops, as 5-bit numbers.
unfoldable pub kept_ops : List ℕ → List ℕ
kept_ops [] = []
kept_ops (u ∷ us) = op (u % 32) ++ kept_ops us

comp_uops-Adds :
    (us : List ℕ) (c : Compiler (List ℕ))
    → Packed c.slot_10 c.instruction
    → Adds (kept_ops us) c (comp_uops us c)
unfolding comp_uops kept_ops
comp_uops-Adds [] c p = record { packed = p; ops = sym (append-nil (all_ops c)) }
comp_uops-Adds (u ∷ us) c p =
    let first = comp_uop-Adds c.slot_10 c.instruction c.lastcall u c.code p in
    let rest = comp_uops-Adds us (comp_uop listing u c).1 first.packed in
    record {
      packed = rest.packed;
      ops =
          rest.ops
          ∙ ap (λ t. t ++ kept_ops us) first.ops
          ∙ append_assoc (all_ops c) (op (u % 32)) (kept_ops us);
    }

-- A flush leaves no micro-op behind.
new_inst-all_ops :
    (slot i l : ℕ) (ws : List ℕ)
    → Packed slot i
    → code_ops (new_inst listing (compiler slot i l ws)).code ≡ all_ops (compiler slot i l ws)
unfolding new_inst all_ops
new_inst-all_ops _ _ l ws empty = sym (append-nil (code_ops ws))
new_inst-all_ops _ _ l ws (one a p) = flush_ops (a * 2 ^ 9) ws (omega arith)
new_inst-all_ops _ _ l ws (two a b p q) = flush_ops (a * 2 ^ 9 + b * 2 ^ 4) ws (omega arith)
new_inst-all_ops _ _ l ws (three a b d p q r) =
    flush_ops (a * 2 ^ 9 + b * 2 ^ 4 + d) ws (omega arith)

-- Micro-ops compiled in a row and then flushed: only groups without the return bit are compiled
-- for them, and these hold them all, as 5-bit numbers, in their order and no others, but for nops.
-- The compiler starts with no group pending.
pub comp_uops-code_ops :
    (us ws : List ℕ) (l : ℕ)
    → code_ops
        (new_inst listing (
          comp_uops us
            (record { slot_10 = slot0_10; instruction = 0; lastcall = l; code = ws }))).code
      ≡ code_ops ws ++ kept_ops us
unfolding all_ops
comp_uops-code_ops us ws l =
    let c = comp_uops us (compiler 19 0 l ws) in
    let adds = comp_uops-Adds us (compiler 19 0 l ws) empty in
    new_inst-all_ops c.slot_10 c.instruction c.lastcall c.code adds.packed
    ∙ adds.ops
    ∙ ap (λ t. t ++ kept_ops us) (append-nil (code_ops ws))
