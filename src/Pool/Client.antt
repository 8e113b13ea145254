-- ===== src/Pool/Client.antt =====
-- The blocks in use of a program that asks src/mw/mpool.c for memory and frees it.
use mega_drive_megawifi_appl.Base.{
  ℕ, ◌+◌, ◌%◌, ◌≤◌, ◌<◌, ◌≡◌, sym, true, some, List, [], ◌∷◌, ◌++◌, ltb, arith, Bool-cases, ltb→lt,
  ltb_false→le, inl, inr,
}
use mathlib.Core.Path.{subst}
use mega_drive_megawifi_appl.Pool.{Pool, mp_align_comp, mp_pool_end, mp_init, mp_alloc, mp_free_to}
use mega_drive_megawifi_appl.Pool.Blocks.{IsPool, mp_alloc_block, free_below, free_top}

-- The blocks in use, the youngest first: each is aligned, and ends below the next younger one or the
-- pool's position.
abbrev pub Packed : ℕ → ℕ → List (ℕ × ℕ) → Type 0
Packed floor top [] = floor ≤ top
Packed floor top ((a, length) ∷ older) = (a % 4 ≡ 0) × (a + length ≤ top) × Packed floor a older

-- What a program may do with the pool, with the blocks that it then has: ask for memory, and free a
-- block together with all younger ones.
pub data Run (eflash : ℕ) : Pool → List (ℕ × ℕ) → Type 0 where
  started : (md : Pool) → Run eflash (mp_init eflash true md) []
  allocated :
      (length a : ℕ) (md md' : Pool) (blocks : List (ℕ × ℕ))
      → Run eflash md blocks
      → length ≤ 65532
      → mp_alloc length md ≡ (some a, md')
      → Run eflash md' ((a, length) ∷ blocks)
  freed :
      (a length : ℕ) (md : Pool) (younger older : List (ℕ × ℕ))
      → Run eflash md (younger ++ ((a, length) ∷ older))
      → Run eflash (mp_free_to a md) older

Packed-older :
    (floor top a length : ℕ) (younger older : List (ℕ × ℕ))
    → Packed floor top (younger ++ ((a, length) ∷ older))
    → (a % 4 ≡ 0) × (a ≤ top) × Packed floor a older
Packed-older floor top a length [] older (al, fits, p) = (al, omega arith, p)
Packed-older floor top a length ((b, k) ∷ younger) older (al, fits, p) =
    let (al', le, p') = Packed-older floor b a length younger older p in (al', omega arith, p')

Packed-floor : (floor top : ℕ) (blocks : List (ℕ × ℕ)) → Packed floor top blocks → floor ≤ top
Packed-floor floor top [] h = h
Packed-floor floor top ((a, k) ∷ older) (al, fits, p) = omega (arith, Packed-floor floor a older p)

mp_init-IsPool :
    (eflash : ℕ) (md : Pool)
    → mp_align_comp eflash < mp_pool_end
    → IsPool (mp_init eflash true md)
      × Packed ((mp_init eflash true md).floor) ((mp_init eflash true md).pos) []
unfolding mp_init
mp_init-IsPool eflash md room = elim (Bool-cases (md.init_done)) [
  | inl t ↦ rw t (fresh, omega arith)
  | inr f ↦ rw f (fresh, omega arith)
]
  where
    start : ℕ
    start = mp_align_comp eflash

    fresh : IsPool (record { floor = start; pos = start; init_done = true })
    fresh = record {
      floor_aligned = omega arith;
      pos_aligned = omega arith;
      in_order = omega arith;
      below_end = room;
    }

mp_alloc-Packed :
    (length a : ℕ) (md md' : Pool) (blocks : List (ℕ × ℕ))
    → length ≤ 65532
    → mp_alloc length md ≡ (some a, md')
    → IsPool md × Packed (md.floor) (md.pos) blocks
    → IsPool md' × Packed (md'.floor) (md'.pos) ((a, length) ∷ blocks)
mp_alloc-Packed length a md md' blocks small e (v, p) =
    let (w, (at, floor, fits, tight)) = rw e at (mp_alloc_block length md v small) in
    let moved : Packed (md.floor) a blocks = subst (λ x. Packed (md.floor) x blocks) (sym at) p in
    (w, (omega (arith, v.pos_aligned), fits, subst (λ x. Packed x a blocks) (sym floor) moved))

mp_free_to-Packed :
    (a length : ℕ) (md : Pool) (younger older : List (ℕ × ℕ))
    → IsPool md × Packed (md.floor) (md.pos) (younger ++ ((a, length) ∷ older))
    → IsPool (mp_free_to a md) × Packed ((mp_free_to a md).floor) ((mp_free_to a md).pos) older
mp_free_to-Packed a length md younger older (v, p) =
    let (al, le, p') = Packed-older (md.floor) (md.pos) a length younger older p in
    let lo : md.floor ≤ a = Packed-floor (md.floor) a older p' in
    elim (Bool-cases (ltb a (md.pos))) [
      | inl t ↦
          rw (free_below a md al lo (ltb→lt _ _ t) (omega (arith, ltb→lt _ _ t, v.below_end))) (
            record {
              floor_aligned = v.floor_aligned;
              pos_aligned = al;
              in_order = lo;
              below_end = omega (arith, ltb→lt _ _ t, v.below_end);
            },
            p',
          )
      | inr f ↦
          let top : a ≡ md.pos = omega (arith, ltb_false→le _ _ f) in
          rw (top, free_top md) (v, rw top at p')
    ]

-- Whatever a program does with the pool, it stays well-formed, and the blocks in use are aligned, lie
-- between the pool's floor and its position, and do not overlap.
pub Run-Packed :
    (eflash : ℕ) (md : Pool) (blocks : List (ℕ × ℕ))
    → mp_align_comp eflash < mp_pool_end
    → Run eflash md blocks
    → IsPool md × Packed (md.floor) (md.pos) blocks
Run-Packed eflash _ _ room (started md) = mp_init-IsPool eflash md room
Run-Packed eflash _ _ room (allocated length a md md' blocks r small e) =
    mp_alloc-Packed length a md md' blocks small e (Run-Packed eflash md blocks room r)
Run-Packed eflash _ _ room (freed a length md younger older r) =
    mp_free_to-Packed a length md younger older (Run-Packed eflash md _ room r)
