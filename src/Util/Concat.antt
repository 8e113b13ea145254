-- ===== src/Util/Concat.antt =====
-- `concat_strings` and `concat_kv_pairs` of src/mw/util.c. A string is its bytes without the NUL, `none`
-- a null pointer; the result is what the C function returns and the bytes that it has written.
use mega_drive_megawifi_appl.Base.{
  ℕ, ◌+◌, ◌%◌, ◌^◌, ◌≤◌, ◌<◌, ◌≡◌, refl, ◌∙◌, Option, none, some, List, [], ◌∷◌, ◌++◌, append_assoc,
  append-nil, length, length-append, ltb, if◌then◌else◌, arith, lt→ltb, ge→ltb, Bool-cases, ltb→lt,
  ltb_false→le, inl, inr,
}

-- The rounds of the loop that are left, at position `pos`, with `output` written.
unfoldable pub concat_from : ℕ → ℕ → List (Option (List ℕ)) → List ℕ → ℕ × List ℕ
concat_from max_len pos [] output = (pos, output)
concat_from max_len pos (none ∷ strs) output = (0, output)
concat_from max_len pos (some str ∷ strs) output =
    let str_len : ℕ = length str + 1 in
    let more = concat_from max_len ((pos + str_len) % 2 ^ 16) strs (output ++ (str ++ (0 ∷ []))) in
    if ltb max_len (pos + str_len) then (0, output) else more

unfoldable pub concat_strings : List (Option (List ℕ)) → ℕ → ℕ × List ℕ
concat_strings strs max_len = concat_from max_len 0 strs []

-- The rounds of the loop of `concat_kv_pairs` that are left, on keys and values in pairs.
unfoldable pub kv_from : ℕ → ℕ → List (Option (List ℕ) × Option (List ℕ)) → List ℕ → ℕ × List ℕ
kv_from max_len pos [] output = (pos, output)
kv_from max_len pos ((none, value) ∷ pairs) output = (0, output)
kv_from max_len pos ((some key, none) ∷ pairs) output = (0, output)
kv_from max_len pos ((some key, some value) ∷ pairs) output =
    let n : ℕ = (length key + 1) + (length value + 1) in
    let more =
      kv_from max_len ((pos + n) % 2 ^ 16) pairs (output ++ (key ++ (0 ∷ (value ++ (0 ∷ []))))) in
    if ltb max_len (pos + n) then (0, output) else more

unfoldable pub concat_kv_pairs : List (Option (List ℕ) × Option (List ℕ)) → ℕ → ℕ × List ℕ
concat_kv_pairs pairs max_len = kv_from max_len 0 pairs []

-- The strings one after the other, each with its NUL.
abbrev pub joined : List (List ℕ) → List ℕ
joined [] = []
joined (str ∷ strs) = str ++ (0 ∷ joined strs)

-- None of the pointers is null.
abbrev pub given : List (List ℕ) → List (Option (List ℕ))
given [] = []
given (str ∷ strs) = some str ∷ given strs

length-joined :
    (str : List ℕ) (strs : List (List ℕ))
    → length (joined (str ∷ strs)) ≡ length str + 1 + length (joined strs)
length-joined str strs = omega (arith, length-append str (0 ∷ joined strs))

concat_from-again :
    (max_len pos : ℕ) (str output : List ℕ) (strs : List (Option (List ℕ)))
    → max_len < 65536
    → pos + (length str + 1) ≤ max_len
    → concat_from max_len pos (some str ∷ strs) output
      ≡ concat_from max_len (pos + (length str + 1)) strs (output ++ (str ++ (0 ∷ [])))
unfolding concat_from
concat_from-again max_len pos str output strs m h =
    let fits : (pos + (length str + 1)) % 2 ^ 16 ≡ pos + (length str + 1) = omega arith in
    rw (ge→ltb max_len (pos + (length str + 1)) h, fits) refl

concat_from-over :
    (max_len pos : ℕ) (str output : List ℕ) (strs : List (Option (List ℕ)))
    → max_len < pos + (length str + 1)
    → concat_from max_len pos (some str ∷ strs) output ≡ (0, output)
unfolding concat_from
concat_from-over max_len pos str output strs h = rw (lt→ltb max_len (pos + (length str + 1)) h) refl

concat_from-bound :
    (max_len : ℕ) (strs : List (Option (List ℕ))) (pos : ℕ) (output : List ℕ)
    → max_len < 65536
    → length output ≡ pos
    → pos ≤ max_len
    → length ((concat_from max_len pos strs output).1) ≤ max_len
unfolding concat_from
concat_from-bound max_len [] pos output m e h = omega arith
concat_from-bound max_len (none ∷ strs) pos output m e h = omega arith
concat_from-bound max_len (some str ∷ strs) pos output m e h =
    elim (Bool-cases (ltb max_len (pos + (length str + 1)))) [
      | inl t ↦ rw (concat_from-over max_len pos str output strs (ltb→lt _ _ t)) (omega arith)
      | inr f ↦ rw (concat_from-again max_len pos str output strs m (ltb_false→le _ _ f)) (
          concat_from-bound max_len strs (pos + (length str + 1)) (output ++ (str ++ (0 ∷ []))) m
            (omega (arith, length-append output (str ++ (0 ∷ [])), length-append str (0 ∷ [])))
            (ltb_false→le _ _ f))
    ]

concat_from-given :
    (max_len : ℕ) (strs : List (List ℕ)) (pos : ℕ) (output : List ℕ)
    → max_len < 65536
    → pos + length (joined strs) ≤ max_len
    → concat_from max_len pos (given strs) output
      ≡ (pos + length (joined strs), output ++ joined strs)
unfolding concat_from
concat_from-given max_len [] pos output m h =
    let same : pos + 0 ≡ pos = omega arith in rw (same, append-nil) refl
concat_from-given max_len (str ∷ strs) pos output m h =
    let all : pos + (length str + 1) + length (joined strs) ≡ pos + length (joined (str ∷ strs)) =
      omega (arith, length-joined str strs) in
    concat_from-again max_len pos str output (given strs) m (omega (arith, length-joined str strs))
    ∙ (rw
        (
          all,
          append_assoc output (str ++ (0 ∷ [])) (joined strs),
          append_assoc str (0 ∷ []) (joined strs),
        )
        at
        (concat_from-given max_len strs (pos + (length str + 1)) (output ++ (str ++ (0 ∷ []))) m
          (omega (arith, length-joined str strs))))

concat_from_overflow :
    (max_len : ℕ) (strs : List (List ℕ)) (pos : ℕ) (output : List ℕ)
    → max_len < 65536
    → pos ≤ max_len
    → max_len < pos + length (joined strs)
    → (concat_from max_len pos (given strs) output).0 ≡ 0
concat_from_overflow max_len [] pos output m lo h = absurd (omega arith)
concat_from_overflow max_len (str ∷ strs) pos output m lo h =
    elim (Bool-cases (ltb max_len (pos + (length str + 1)))) [
      | inl t ↦ rw (concat_from-over max_len pos str output (given strs) (ltb→lt _ _ t)) refl
      | inr f ↦ rw (concat_from-again max_len pos str output (given strs) m (ltb_false→le _ _ f)) (
          concat_from_overflow max_len strs (pos + (length str + 1)) (output ++ (str ++ (0 ∷ []))) m
            (ltb_false→le _ _ f) (omega (arith, length-joined str strs)))
    ]

-- `concat_strings` writes strings that fit one after the other, each with its NUL, and returns their
-- whole length.
pub concat_strings-joined :
    (strs : List (List ℕ)) (max_len : ℕ)
    → max_len < 65536
    → length (joined strs) ≤ max_len
    → concat_strings (given strs) max_len ≡ (length (joined strs), joined strs)
unfolding concat_strings
concat_strings-joined strs max_len m h =
    let same : 0 + length (joined strs) ≡ length (joined strs) = omega arith in
    rw same at (concat_from-given max_len strs 0 [] m (omega arith))

-- For strings that do not fit, `concat_strings` returns 0.
pub concat_strings_overflow :
    (strs : List (List ℕ)) (max_len : ℕ)
    → max_len < 65536
    → max_len < length (joined strs)
    → (concat_strings (given strs) max_len).0 ≡ 0
unfolding concat_strings
concat_strings_overflow strs max_len m h =
    concat_from_overflow max_len strs 0 [] m (omega arith) (omega arith)

-- Whatever the strings, `concat_strings` writes no more bytes than it was given room for.
pub concat_strings_bound :
    (strs : List (Option (List ℕ))) (max_len : ℕ)
    → max_len < 65536
    → length ((concat_strings strs max_len).1) ≤ max_len
unfolding concat_strings
concat_strings_bound strs max_len m = concat_from-bound max_len strs 0 [] m refl (omega arith)
