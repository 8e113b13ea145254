-- ===== src/MegaWifi/Chunks.antt =====
-- `mw_send_sync` of src/mw/megawifi.c sends its data in pieces.
use mega_drive_megawifi_appl.Base.{
  ℕ, zero, suc, ◌≤◌, ◌<◌, ◌≡◌, refl, Bool, true, false, List, [], ◌∷◌, ◌++◌, take-append-drop,
  length, take, drop, length-drop, ◌==◌, if◌then◌else◌, arith,
}
use mega_drive_megawifi_appl.MegaWifi.{Mw, Post, lsd_sent, timer_started, is_posted_ok}

-- The pieces of at most `size` bytes, in order.
unfoldable pub pieces : ℕ → ℕ → List ℕ → List (List ℕ)
pieces zero size bytes = []
pieces (suc n) size [] = []
pieces (suc n) size (b ∷ bs) = take size (b ∷ bs) ∷ pieces n size (drop size (b ∷ bs))

-- The pieces that are handed over: those before the first post that is no success, and that one's.
unfoldable pub tried : List (List ℕ) → List Post → List (List ℕ)
tried [] posts = []
tried (piece ∷ later) [] = piece ∷ []
tried (piece ∷ later) (p ∷ ps) =
    let more = tried later ps in if is_posted_ok p.stat then piece ∷ more else piece ∷ []

abbrev pub glued : List (List ℕ) → List ℕ
glued [] = []
glued (piece ∷ later) = piece ++ glued later

-- The pieces are the data, if none of them is empty.
pub glued-pieces :
    (n size : ℕ) (bytes : List ℕ)
    → 0 < size
    → length bytes ≤ n
    → glued (pieces n size bytes) ≡ bytes
unfolding pieces
glued-pieces zero size [] pos h = refl
glued-pieces zero size (b ∷ bs) pos h = absurd (omega arith)
glued-pieces (suc n) size [] pos h = refl
glued-pieces (suc n) size (b ∷ bs) pos h =
    rw (glued-pieces n size (drop size (b ∷ bs)) pos (omega (arith, length-drop size (b ∷ bs))))
      (take-append-drop size (b ∷ bs))

-- The latest first, behind what was sent before.
abbrev pub sent_pieces : ℕ → List (List ℕ) → List (ℕ × List ℕ) → List (ℕ × List ℕ)
sent_pieces ch [] before = before
sent_pieces ch (piece ∷ later) before = sent_pieces ch later ((ch, piece) ∷ before)

-- The state after a round that uses up a post.
abbrev after_piece : ℕ → List ℕ → ℕ → List Post → Mw → Mw
after_piece ch piece tout ps d = record d {
  posts = ps;
  calls =
      (if tout == 0
        then (lsd_sent ch piece ∷ d.calls)
        else (timer_started tout ∷ lsd_sent ch piece ∷ d.calls));
}

-- How many of the posts a run uses and whether all of these are successes.
unfoldable pub posts_left : List (List ℕ) → List Post → List Post
posts_left [] posts = posts
posts_left (piece ∷ later) [] = []
posts_left (piece ∷ later) (p ∷ ps) =
    let more = posts_left later ps in if is_posted_ok p.stat then more else ps

unfoldable pub all_succeed : List (List ℕ) → List Post → Bool
all_succeed [] posts = true
all_succeed (piece ∷ later) [] = false
all_succeed (piece ∷ later) (p ∷ ps) =
    let more = all_succeed later ps in if is_posted_ok p.stat then more else false

-- There is a post for each piece.
abbrev pub Enough : List (List ℕ) → List Post → Type 0
Enough [] posts = Unit {0}
Enough (piece ∷ later) [] = ⊥
Enough (piece ∷ later) (p ∷ ps) = Enough later ps
