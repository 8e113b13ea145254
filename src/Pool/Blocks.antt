-- ===== src/Pool/Blocks.antt =====
-- The blocks that src/mw/mpool.c gives out.
use mega_drive_megawifi_appl.Base.{
  ℕ, zero, suc, ◌+◌, ◌%◌, ◌≤◌, ◌<◌, ◌≡◌, refl, sym, ◌∙◌, ap, Option, none, some, ltb, leb, arith,
  le→leb, gt→leb, lt→ltb, ge→ltb, eq→==, Bool-cases, ltb→lt, ltb_false→le, inl, inr,
}
use mega_drive_megawifi_appl.Pool.{
  Pool, align_up, mp_align_comp, mp_pool_end, mp_alloc, mp_calloc, mp_free_to,
}

-- The pool's borders are aligned and in order, below the end of the RAM.
pub record IsPool (md : Pool) : Type 0 where
  pub floor_aligned : md.floor % 4 ≡ 0
  pub pos_aligned : md.pos % 4 ≡ 0
  pub in_order : md.floor ≤ md.pos
  pub below_end : md.pos < mp_pool_end

-- Where `mp_alloc` finds room, and where not.
pub mp_alloc-room :
    (length : ℕ) (md : Pool)
    → align_up 16 length + md.pos < mp_pool_end
    → mp_alloc length md ≡ (some (md.pos), record md { pos = align_up 16 length + md.pos })
unfolding mp_alloc
mp_alloc-room length md h = rw (gt→leb mp_pool_end (align_up 16 length + md.pos) h) refl

pub mp_alloc-full :
    (length : ℕ) (md : Pool)
    → mp_pool_end ≤ align_up 16 length + md.pos
    → mp_alloc length md ≡ (none, md)
unfolding mp_alloc
mp_alloc-full length md h = rw (le→leb mp_pool_end (align_up 16 length + md.pos) h) refl

pub align_up-fits : (n : ℕ) → n ≤ 65532 → (n ≤ align_up 16 n) × (align_up 16 n < n + 4)
align_up-fits n h = (omega arith, omega arith)

pub align_up-aligned : (n : ℕ) → align_up 16 n % 4 ≡ 0
align_up-aligned n = omega arith

pub aligned_comp : (n : ℕ) → n < mp_pool_end → n % 4 ≡ 0 → mp_align_comp n ≡ n
aligned_comp n h e = omega arith

-- What a request for `length` bytes may come to: NULL, if a block would reach the end of the RAM, or a
-- block from the old position on that has room for them.
abbrev pub Granted : ℕ → Pool → Option ℕ × Pool → Type 0
Granted length md (none, md') = (md' ≡ md) × (mp_pool_end < length + md.pos + 4)
Granted length md (some a, md') =
    (a ≡ md.pos) × (md'.floor ≡ md.floor) × (a + length ≤ md'.pos) × (md'.pos < a + length + 4)

-- A request for at most 65532 bytes gets an aligned block of at least that size, less than four bytes
-- larger, from the old position on, or NULL and the same pool if it would reach the end of the RAM;
-- the pool stays well-formed.
pub mp_alloc_block :
    (length : ℕ) (md : Pool)
    → IsPool md
    → length ≤ 65532
    → IsPool ((mp_alloc length md).1) × Granted length md (mp_alloc length md)
mp_alloc_block length md v h = elim (Bool-cases (ltb (align_up 16 length + md.pos) mp_pool_end)) [
  | inl t ↦
      let room : align_up 16 length + md.pos < mp_pool_end = ltb→lt _ _ t in
      rw (mp_alloc-room length md room) (
        record {
          floor_aligned = v.floor_aligned;
          pos_aligned = omega (arith, align_up-aligned length, v.pos_aligned);
          in_order = omega (arith, v.in_order);
          below_end = room;
        },
        (refl, refl, omega (arith, align_up-fits length h), omega (arith, align_up-fits length h)),
      )
  | inr f ↦
      rw (mp_alloc-full length md (ltb_false→le _ _ f))
        (v, (refl, omega (arith, ltb_false→le _ _ f, align_up-fits length h)))
]

pub free_below :
    (p : ℕ) (md : Pool)
    → p % 4 ≡ 0
    → md.floor ≤ p
    → p < md.pos
    → p < mp_pool_end
    → mp_free_to p md ≡ record md { pos = p }
unfolding mp_free_to
free_below p md al lo hi end =
    rw
      (
        le→leb (md.floor) p lo,
        lt→ltb p (md.pos) hi,
        eq→== p (mp_align_comp p) (sym (aligned_comp p (omega arith) al)),
      )
      refl

pub free_top : (md : Pool) → mp_free_to (md.pos) md ≡ md
unfolding mp_free_to
free_top md =
    rw (ge→ltb (md.pos) (md.pos) (omega arith))
      (elim (Bool-cases (leb (md.floor) (md.pos))) [ inl t ↦ rw t refl | inr f ↦ rw f refl ])

-- What an address given out says of the pools before and after.
pub mp_alloc-some :
    (length a : ℕ) (md md' : Pool)
    → mp_alloc length md ≡ (some a, md')
    → (md.pos ≡ a) × (record md { pos = align_up 16 length + md.pos } ≡ md')
mp_alloc-some length a md md' e =
    elim (Bool-cases (ltb (align_up 16 length + md.pos) mp_pool_end)) [
      | inl t ↦
          let r : ◌≡◌ {A = Option ℕ × Pool}
              (some (md.pos), record md { pos = align_up 16 length + md.pos }) (some a, md') =
            sym (mp_alloc-room length md (ltb→lt _ _ t)) ∙ e in
          let given : ◌≡◌ {A = Option ℕ} (some (md.pos)) (some a) = ap (λ x. x.0) r in
          (cc given, ap (λ x. x.1) r)
      | inr f ↦
          let r : ◌≡◌ {A = Option ℕ × Pool} (none, md) (some a, md') =
            sym (mp_alloc-full length md (ltb_false→le _ _ f)) ∙ e in
          absurd (cc)
    ]

pub free_back :
    (k : ℕ) (md : Pool) → IsPool md → mp_free_to (md.pos) (record md { pos = k + md.pos }) ≡ md
free_back zero md v = let same : 0 + md.pos ≡ md.pos = omega arith in rw same (free_top md)
free_back (suc k) md v =
    free_below (md.pos) (record md { pos = suc k + md.pos }) (v.pos_aligned) (v.in_order)
      (omega arith) (v.below_end)

-- Freeing the block given last brings the pool back to what it was before, whatever its length.
pub mp_free_to-mp_alloc :
    (length a : ℕ) (md md' : Pool)
    → IsPool md
    → mp_alloc length md ≡ (some a, md')
    → mp_free_to a md' ≡ md
mp_free_to-mp_alloc length a md md' v e =
    let (at, next) = mp_alloc-some length a md md' e in
    rw (sym at, sym next) (free_back (align_up 16 length) md v)

-- A request for 65533 to 65535 bytes is rounded to 0: it gets the address of the next block, and the
-- pool does not move.
pub mp_alloc_overflow :
    (length : ℕ) (md : Pool)
    → md.pos < mp_pool_end
    → 65532 < length
    → length < 65536
    → mp_alloc length md ≡ (some (md.pos), md)
mp_alloc_overflow length md h lo hi =
    let none_left : align_up 16 length ≡ 0 = omega arith in
    let same : 0 + md.pos ≡ md.pos = omega arith in
    rw (mp_alloc-room length md (omega arith), none_left, same) refl

-- Where there is room, a cleared block holds only zeros, and the bytes of all older blocks, which lie
-- below it, are left as they were.
pub mp_calloc_zeroes :
    (length b c : ℕ) (md : Pool) (memory : ℕ → ℕ)
    → align_up 16 length + md.pos < mp_pool_end
    → b < length
    → c < md.pos
    → let (mem, md', memory') = mp_calloc length md memory in
      (mem ≡ some (md.pos)) × (memory' (md.pos + b) ≡ 0) × (memory' c ≡ memory c)
unfolding mp_calloc
mp_calloc_zeroes length b c md memory room hb hc =
    rw (mp_calloc, mp_alloc-room length md room) (refl, ground arith, ground arith)
