-- ===== src/Blake2s/Stream.antt =====
-- b2s_hmac_puts against b2s_hmac_putc: what the shortcut for whole blocks keeps.
use mathlib.Core.List.{append_assoc, append-nil}
use lite_forth.Common.{
  ℕ, zero, suc, ◌+◌, ◌-◌, ◌≤◌, ◌<◌, ◌≡◌, refl, sym, ap, ◌∙◌, arith, List, [], ◌∷◌, ◌++◌, true,
  false, inl, inr, Bool-cases, ltb, leb, ◌==◌, ==_iff, take, drop, length,
}
use lite_forth.Blake2s.{HashState, block_bytes, absorb, b2s_hmac_putc, puts_blocks, b2s_hmac_puts}

-- b2s_hmac_putc byte by byte.
unfoldable pub putcs : HashState → List ℕ → HashState
putcs s [] = s
putcs s (c ∷ cs) = putcs (b2s_hmac_putc s c) cs

pub length-++ : (xs ys : List ℕ) → length (xs ++ ys) ≡ length xs + length ys
length-++ [] ys = omega arith
length-++ (x ∷ xs) ys = omega (arith, length-++ xs ys)

pub take-++-drop : (n : ℕ) (xs : List ℕ) → take n xs ++ drop n xs ≡ xs
take-++-drop zero xs = refl
take-++-drop (suc n) [] = refl
take-++-drop (suc n) (x ∷ xs) = ap (λ t. x ∷ t) (take-++-drop n xs)

pub length-take : (n : ℕ) (xs : List ℕ) → n ≤ length xs → length (take n xs) ≡ n
length-take zero xs h = refl
length-take (suc n) [] h = absurd (omega arith)
length-take (suc n) (x ∷ xs) h = omega (arith, length-take n xs (omega arith))

pub length-drop : (n : ℕ) (xs : List ℕ) → length (drop n xs) ≡ length xs - n
length-drop zero xs = omega arith
length-drop (suc n) [] = omega arith
length-drop (suc n) (x ∷ xs) = omega (arith, length-drop n xs)

pub putcs-++ : (s : HashState) (xs ys : List ℕ) → putcs s (xs ++ ys) ≡ putcs (putcs s xs) ys
unfolding putcs
putcs-++ s [] ys = refl
putcs-++ s (x ∷ xs) ys = putcs-++ (b2s_hmac_putc s x) xs ys

putc-room :
    (s : HashState) (c : ℕ)
    → length s.buf < block_bytes
    → b2s_hmac_putc s c ≡ record s { buf = s.buf ++ (c ∷ []) }
unfolding b2s_hmac_putc
putc-room s c h =
    let room : (length s.buf == block_bytes) ≡ false = ground arith in rw (b2s_hmac_putc, room) refl

putc-full :
    (s : HashState) (c : ℕ)
    → length s.buf ≡ block_bytes
    → b2s_hmac_putc s c ≡ record (absorb s s.buf) { buf = c ∷ [] }
unfolding b2s_hmac_putc
putc-full s c h =
    let full : (length s.buf == block_bytes) ≡ true = (==_iff _ _).1 h in
    rw (b2s_hmac_putc, full) refl

-- Bytes that fit the buffer go there.
pub putcs-room :
    (s : HashState) (xs : List ℕ)
    → length s.buf + length xs ≤ block_bytes
    → putcs s xs ≡ record s { buf = s.buf ++ xs }
unfolding putcs
putcs-room s [] h = rw (append-nil s.buf) refl
putcs-room s (x ∷ xs) h =
    ap (λ t. putcs t xs) (putc-room s x (omega arith))
    ∙ putcs-room (record s { buf = s.buf ++ (x ∷ []) }) xs (omega (arith, length-++ s.buf (x ∷ [])))
    ∙ ap (λ t. record s { buf = t }) (append_assoc s.buf (x ∷ []) xs)

-- A full buffer is compressed when a byte follows.
pub putcs-full :
    (s : HashState) (xs : List ℕ)
    → length s.buf ≡ block_bytes
    → 0 < length xs
    → putcs s xs ≡ putcs (record (absorb s s.buf) { buf = [] }) xs
unfolding putcs
putcs-full s [] h p = absurd (omega arith)
putcs-full s (x ∷ xs) h p =
    ap (λ t. putcs t xs)
      (putc-full s x h ∙ sym (putc-room (record (absorb s s.buf) { buf = [] }) x (omega arith)))

puts_blocks-putcs :
    (fuel : ℕ) (s : HashState) (input : List ℕ)
    → length input ≤ fuel
    → record (puts_blocks fuel s input).0 { buf = (puts_blocks fuel s input).1 }
      ≡ putcs (record s { buf = [] }) input
unfolding puts_blocks absorb
puts_blocks-putcs zero s input h = sym (putcs-room (record s { buf = [] }) input (omega arith))
puts_blocks-putcs (suc fuel) s input h = elim (Bool-cases (ltb block_bytes (length input))) [
  | inr few ↦
      rw (puts_blocks, few) (sym (putcs-room (record s { buf = [] }) input (ground (arith, few))))
  | inl more ↦
      (let big : block_bytes < length input = ground (arith, more) in
        let block = take block_bytes input in
        let rest = drop block_bytes input in
        let size = length-take block_bytes input (omega (arith, big)) in
        rw (puts_blocks, more)
          (puts_blocks-putcs fuel (absorb s block) rest
              (omega (arith, big, length-drop block_bytes input))
            ∙ sym (
                ap (putcs (record s { buf = [] })) (sym (take-++-drop block_bytes input))
                ∙ putcs-++ (record s { buf = [] }) block rest
                ∙ ap (λ t. putcs t rest)
                    (putcs-room (record s { buf = [] }) block (omega (arith, size)))
                ∙ putcs-full (record s { buf = block }) rest size
                    (omega (arith, big, length-drop block_bytes input)))))
]

-- With a buffer that holds at most a block, b2s_hmac_puts of any bytes comes to b2s_hmac_putc of
-- each in turn: the same state of the hash, the same counter and the same bytes waiting.
pub b2s_hmac_puts-putcs :
    (s : HashState) (input : List ℕ)
    → length s.buf ≤ block_bytes
    → b2s_hmac_puts s input ≡ putcs s input
unfolding b2s_hmac_puts absorb
b2s_hmac_puts-putcs s [] h = unfold putcs in refl
b2s_hmac_puts-putcs s (x ∷ xs) h = elim (Bool-cases (ltb left (length input))) [
  | inr few ↦ rw (some_bytes, few) (sym (putcs-room s input (ground (arith, few))))
  | inl more ↦
      (let big : left < length input = ground (arith, more) in
        let size = length-take left input (omega (arith, big)) in
        let more_left = length-drop left input in
        let full = length-++ s.buf first in
        rw (some_bytes, more)
          (puts_blocks-putcs (length rest) (absorb s (s.buf ++ first)) rest (omega arith)
            ∙ sym (
                ap (putcs s) (sym (take-++-drop left input))
                ∙ putcs-++ s first rest
                ∙ ap (λ t. putcs t rest) (putcs-room s first (omega (arith, size)))
                ∙ putcs-full (record s { buf = s.buf ++ first }) rest (omega (arith, size, full))
                    (omega (arith, big, more_left)))))
]
  where
    input : List ℕ
    input = x ∷ xs

    some_bytes : leb (length input) 0 ≡ false
    some_bytes = ground arith

    left : ℕ
    left = block_bytes - length s.buf

    first : List ℕ
    first = take left input

    rest : List ℕ
    rest = drop left input
