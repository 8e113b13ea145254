-- ===== src/Util/Letters.antt =====
-- `to_upper` of src/mw/util.h.
use mega_drive_megawifi_appl.Base.{
  ℕ, ◌-◌, ◌≡◌, refl, Bool, ◌&&◌, List, [], ◌∷◌, leb, if◌then◌else◌, arith,
}

abbrev pub is_lower : ℕ → Bool
is_lower c = leb 97 c && leb c 122

-- A string is its bytes up to the NUL.
unfoldable pub to_upper : List ℕ → List ℕ
to_upper [] = []
to_upper (c ∷ cs) = (if is_lower c then c - 32 else c) ∷ to_upper cs

-- No lower-case letter is left, so that a second call changes nothing.
pub to_upper-to_upper : (str : List ℕ) → to_upper (to_upper str) ≡ to_upper str
unfolding to_upper
to_upper-to_upper [] = refl
to_upper-to_upper (c ∷ cs) = rw (to_upper-to_upper cs) (ground arith)
