-- ===== src/Vm/CodeCache.antt =====
-- The code page that vmExec keeps between fetches is a cache: it does not change what is fetched.
use lite_forth.Common.{
  ℕ, ◌*◌, ◌/◌, ◌^◌, ◌≤◌, ◌<◌, ◌≡◌, refl, sym, ap, ◌∙◌, arith, true, false, leb, ◌==◌, u32, sub32,
  IsWord, Bool-cases, inl, inr,
}
use lite_forth.Vm.Memory.{Memory, mem_pages}
use lite_forth.Vm.Exec.{
  Cache, cold, Fetched, returned, refused, fetched, lookup_page, half_cell, fetch_inst, terminator,
}

-- A cache that is empty, or holds a page of the memory.
pub data IsCacheOf (m : Memory) (c : Cache) : Type 0 where
  empty : c.cspan ≡ 0 → IsCacheOf m c
  holds : (page : ℕ) → page < mem_pages → c ≡ lookup_page m (page * 2 ^ 20) → IsCacheOf m c

-- What a fetch comes to, without the cache that a refused fetch leaves behind.
abbrev pub outcome_of : Fetched → Fetched
outcome_of returned = returned
outcome_of (refused c) = refused cold
outcome_of (fetched inst c) = fetched inst c

-- Executable limits that lie in their page, of 2 ^ 19 cells.
abbrev pub FitPages : Memory → Type 0
FitPages m = (page : ℕ) → m.executable page ≤ 2 ^ 19

module _ (m : Memory) (fits : FitPages m) (pc : ℕ) (word : IsWord pc) where
  lookup-page :
      (page : ℕ)
      → page < mem_pages
      → page ≡ pc / 2 ^ 20
      → lookup_page m (page * 2 ^ 20) ≡ lookup_page m pc
  lookup-page page small e =
      let same : page * 2 ^ 20 / 2 ^ 20 ≡ pc / 2 ^ 20 = omega arith in rw same refl

  in_page :
      (page : ℕ)
      → page < mem_pages
      → leb (u32 (m.executable page * 2)) (sub32 pc (u32 (page * 2 ^ 20))) ≡ false
      → page ≡ pc / 2 ^ 20
  in_page page small hit = ground (arith, fits page)

  lookup-at :
      (page : ℕ)
      → lookup_page m (page * 2 ^ 20)
        ≡ record { code = page; cbase = u32 (page * 2 ^ 20); cspan = u32 (m.executable page * 2) }
  lookup-at page = let same : page * 2 ^ 20 / 2 ^ 20 ≡ page = omega arith in rw same refl

  -- A cache that serves a fetch holds the page of its PC, which is one of the pages.
  hit_page :
      (c : Cache) (page : ℕ)
      → page < mem_pages
      → c ≡ lookup_page m (page * 2 ^ 20)
      → leb c.cspan (sub32 pc c.cbase) ≡ false
      → page ≡ pc / 2 ^ 20
  hit_page c page small e hit =
      in_page page small (ap (λ t. leb t.cspan (sub32 pc t.cbase)) (sym (e ∙ lookup-at page)) ∙ hit)

  cold_fetch :
      pc / 2 ^ 20 < mem_pages
      → leb (lookup_page m pc).cspan (sub32 pc (lookup_page m pc).cbase) ≡ false
      → fetch_inst cold m pc ≡ fetched (half_cell m (lookup_page m pc) pc) (lookup_page m pc)
  unfolding fetch_inst
  cold_fetch small inside =
      let first : leb 0 (sub32 pc 0) ≡ true = ground arith in
      let running : (pc == terminator) ≡ false = ground arith in
      let page : leb mem_pages (pc / 2 ^ 20) ≡ false = ground arith in
      rw (first, running, page, inside) refl

  hit_lem :
      (c : Cache)
      → c ≡ lookup_page m pc
      → pc / 2 ^ 20 < mem_pages
      → leb c.cspan (sub32 pc c.cbase) ≡ false
      → fetch_inst c m pc ≡ fetch_inst cold m pc
  unfolding fetch_inst
  hit_lem c e small hit =
      let inside = ap (λ t. leb t.cspan (sub32 pc t.cbase)) (sym e) ∙ hit in
      rw hit (ap (λ t. fetched (half_cell m t pc) t) e) ∙ sym (cold_fetch small inside)

  miss_lem :
      (c : Cache)
      → leb c.cspan (sub32 pc c.cbase) ≡ true
      → outcome_of (fetch_inst c m pc) ≡ outcome_of (fetch_inst cold m pc)
  unfolding fetch_inst
  miss_lem c miss =
      let first : leb 0 (sub32 pc 0) ≡ true = ground arith in
      elim (Bool-cases (pc == terminator)) [
        | inl ends ↦ rw (miss, first, ends) refl
        | inr runs ↦ elim (Bool-cases (leb mem_pages (pc / 2 ^ 20))) [
          | inl outside ↦ rw (miss, first, runs, outside) refl
          | inr page ↦ rw (miss, first, runs, page) refl
        ]
      ]

  -- A fetch from the cache, if that is empty or holds a page, comes to what it comes to without
  -- one: the same instruction and page, a refusal or the end of the word. The executable limit
  -- of each page is at most the 2 ^ 19 cells of a page.
  pub fetch_inst-cold :
      (c : Cache)
      → IsCacheOf m c
      → outcome_of (fetch_inst c m pc) ≡ outcome_of (fetch_inst cold m pc)
  fetch_inst-cold c (empty e) = miss_lem c (ground (arith, e))
  fetch_inst-cold c (holds page small e) = elim (Bool-cases (leb c.cspan (sub32 pc c.cbase))) [
    | inl miss ↦ miss_lem c miss
    | inr hit ↦
        (let at = hit_page c page small e hit in
          ap outcome_of (hit_lem c (e ∙ lookup-page page small at) (omega arith) hit))
  ]

-- The cache that a fetch leaves.
abbrev pub cache_of : Cache → Fetched → Cache
cache_of c returned = c
cache_of c (refused c') = c'
cache_of c (fetched inst c') = c'

looked_up :
    (m : Memory) (pc : ℕ) → leb mem_pages (pc / 2 ^ 20) ≡ false → IsCacheOf m (lookup_page m pc)
looked_up m pc h =
    let same : pc / 2 ^ 20 * 2 ^ 20 / 2 ^ 20 ≡ pc / 2 ^ 20 = omega arith in
    holds (pc / 2 ^ 20) (ground arith) (rw same refl)

-- A fetch leaves a cache of the same memory.
fetch_inst-IsCacheOf :
    (m : Memory) (c : Cache) (pc : ℕ) → IsCacheOf m c → IsCacheOf m (cache_of c (fetch_inst c m pc))
unfolding fetch_inst
fetch_inst-IsCacheOf m c pc h = elim (Bool-cases (leb c.cspan (sub32 pc c.cbase))) [
  | inr hit ↦ rw hit h
  | inl miss ↦ elim (Bool-cases (pc == terminator)) [
    | inl ends ↦ rw (miss, ends) h
    | inr runs ↦ elim (Bool-cases (leb mem_pages (pc / 2 ^ 20))) [
      | inl outside ↦ rw (miss, runs, outside) h
      | inr page ↦
          elim (Bool-cases (leb (lookup_page m pc).cspan (sub32 pc (lookup_page m pc).cbase))) [
            | inl beyond ↦ rw (miss, runs, page, beyond) (looked_up m pc page)
            | inr inside ↦ rw (miss, runs, page, inside) (looked_up m pc page)
          ]
    ]
  ]
]
