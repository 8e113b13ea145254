-- ===== src/Examples/PoolRuns.antt =====
-- src/mw/mpool.c on concrete requests.
use mega_drive_megawifi_appl.Base.{ℕ, ◌≡◌, refl, true, false, some, [], ◌∷◌, arith}
use mathlib.Core.Path.{subst}
use mega_drive_megawifi_appl.Pool.{Pool, mp_init, mp_alloc, mp_free_to}
use mega_drive_megawifi_appl.Pool.Blocks.{IsPool, mp_alloc_overflow}
use mega_drive_megawifi_appl.Pool.Client.{Packed, Run, started, allocated, freed, Run-Packed}

abbrev data_end : ℕ
data_end = 0x00FF0102

abbrev unset : Pool
unset = record { floor = 0; pos = 0; init_done = false }

abbrev empty : Pool
empty = record { floor = 0x00FF0104; pos = 0x00FF0104; init_done = true }

-- After a block of five bytes, and of eight behind it.
abbrev one : Pool
one = record { floor = 0x00FF0104; pos = 0x00FF010C; init_done = true }

abbrev two : Pool
two = record { floor = 0x00FF0104; pos = 0x00FF0114; init_done = true }

starts : mp_init data_end true unset ≡ empty
unfolding mp_init
starts = refl

gives_five : mp_alloc 5 empty ≡ (some 0x00FF0104, one)
unfolding mp_alloc
gives_five = refl

gives_eight : mp_alloc 8 one ≡ (some 0x00FF010C, two)
unfolding mp_alloc
gives_eight = refl

frees : mp_free_to 0x00FF010C two ≡ one
unfolding mp_free_to
frees = refl

empty-IsPool : IsPool empty
empty-IsPool = record {
  floor_aligned = refl;
  pos_aligned = refl;
  in_order = omega arith;
  below_end = omega arith;
}

Run-Packed_example : IsPool one × Packed 0x00FF0104 0x00FF010C ((0x00FF0104, 5) ∷ [])
Run-Packed_example = Run-Packed data_end one ((0x00FF0104, 5) ∷ []) (omega arith) run
  where
    begun : Run data_end empty []
    begun = subst (λ md. Run data_end md []) starts (started unset)

    both : Run data_end two ((0x00FF010C, 8) ∷ (0x00FF0104, 5) ∷ [])
    both =
        allocated 8 _ one two _ (allocated 5 _ empty one [] begun (omega arith) gives_five)
          (omega arith) gives_eight

    run : Run data_end one ((0x00FF0104, 5) ∷ [])
    run =
        subst (λ md. Run data_end md ((0x00FF0104, 5) ∷ [])) frees
          (freed 0x00FF010C 8 two [] ((0x00FF0104, 5) ∷ []) both)

mp_alloc_overflow_example : mp_alloc 65534 empty ≡ (some 0x00FF0104, empty)
mp_alloc_overflow_example = mp_alloc_overflow 65534 empty (omega arith) (omega arith) (omega arith)
