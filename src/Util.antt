-- ===== src/Util.antt =====
-- src/mw/util.c: numbers and addresses as text. A pointer into a string is the list of the bytes from
-- there on, and a read past them faults; NULL is `none`. A function that prints gives the bytes that
-- it writes before the terminating NUL: the C function returns their number.
pub mod Digits
pub mod Parse
pub mod Validate
pub mod Print
pub mod Wide
pub mod Concat
pub mod Hex
pub mod Letters
pub mod Versions
use mega_drive_megawifi_appl.Base.{
  ℕ, zero, suc, ◌+◌, ◌-◌, ◌*◌, ◌/◌, ◌%◌, ◌^◌, Bool, true, false, not, ◌&&◌, ◌||◌, Option, none,
  some, List, [], ◌∷◌, ◌++◌, ltb, leb, ◌==◌, if◌then◌else◌, Outcome, done, fault, ◌>>=◌, read, drop,
}

abbrev pub char_0 : ℕ
char_0 = 48

abbrev pub char_9 : ℕ
char_9 = 57

abbrev pub char_dot : ℕ
char_dot = 46

abbrev pub is_digit : ℕ → Bool
is_digit c = leb char_0 c && leb c char_9

-- `str++` while another digit follows a '0'.
unfoldable pub skip_zeros : List ℕ → Outcome (List ℕ)
skip_zeros [] = fault
skip_zeros (c ∷ cs) =
    if c == char_0
    then (read cs 0 >>= λ next. if is_digit next then skip_zeros cs else done (c ∷ cs))
    else done (c ∷ cs)

-- `str++` over every '0'.
unfoldable pub skip_all_zeros : List ℕ → Outcome (List ℕ)
skip_all_zeros [] = fault
skip_all_zeros (c ∷ cs) = if c == char_0 then skip_all_zeros cs else done (c ∷ cs)

-- The digits at the start, counted up to `n`.
unfoldable pub count_digits : ℕ → List ℕ → Outcome ℕ
count_digits zero str = done 0
count_digits (suc n) [] = fault
count_digits (suc n) (c ∷ cs) =
    if is_digit c then (count_digits n cs >>= λ i. done (suc i)) else done 0

-- Whether the three digits at the start are a number above 255.
unfoldable pub above_255 : List ℕ → Outcome Bool
above_255 str = do
  c ← read str 0
  d ← read str 1
  e ← read str 2
  done (ltb 50 c || (c == 50 && (ltb 53 d || (d == 53 && ltb 53 e))))

-- The `switch` of `str_is_uint8`.
unfoldable pub uint8_end : ℕ → List ℕ → Outcome (Option (List ℕ))
uint8_end (suc zero) str = done (some (drop 1 str))
uint8_end (suc (suc zero)) str = done (some (drop 2 str))
uint8_end (suc (suc (suc zero))) str =
    above_255 str >>= λ above. done (if above then none else some (drop 3 str))
uint8_end _ str = done none

unfoldable pub str_is_uint8 : List ℕ → Outcome (Option (List ℕ))
str_is_uint8 str = skip_zeros str >>= λ start. count_digits 4 start >>= λ i. uint8_end i start

-- The `i + 1` rounds of `ip_validate`: a dot and a number each.
unfoldable pub dotted_rest : ℕ → List ℕ → Outcome Bool
dotted_rest zero str = read str 0 >>= λ c. done (c == 0)
dotted_rest (suc i) str = do
  c ← read str 0
  if not (c == char_dot) then done false else do
    next ← str_is_uint8 (drop 1 str)
    elim next [ none ↦ done false | some after ↦ dotted_rest i after ]

unfoldable pub ip_validate : List ℕ → Outcome Bool
ip_validate str = do
  next ← str_is_uint8 str
  elim next [ none ↦ done false | some after ↦ dotted_rest 3 after ]

-- `*result += weight * (*str - '0'); str++`, on a byte.
abbrev pub add_digit : ℕ → ℕ × List ℕ → Outcome (ℕ × List ℕ)
add_digit weight (result, str) = do
  c ← read str 0
  done ((result + (c - char_0) * weight) % 2 ^ 8, drop 1 str)

-- The `switch` of `str_to_uint8`.
unfoldable pub uint8_value : ℕ → List ℕ → Outcome (Option (ℕ × List ℕ))
uint8_value (suc zero) str = add_digit 1 (0, str) >>= λ r. done (some r)
uint8_value (suc (suc zero)) str = add_digit 10 (0, str) >>= add_digit 1 >>= λ r. done (some r)
uint8_value (suc (suc (suc zero))) str = above_255 str >>= λ above.
    if above
    then done none
    else (add_digit 100 (0, str) >>= add_digit 10 >>= add_digit 1 >>= λ r. done (some r))
uint8_value _ str = done none

-- What `str_to_uint8` does once the zeros are skipped.
unfoldable pub significant_value : List ℕ → Outcome (Option (ℕ × List ℕ))
significant_value start = do
  c ← read start 0
  if not (is_digit c)
      then done (some (0, start))
      else (count_digits 4 start >>= λ i. uint8_value i start)

-- The value and what follows it; `none` for NULL.
unfoldable pub str_to_uint8 : List ℕ → Outcome (Option (ℕ × List ℕ))
str_to_uint8 str = skip_all_zeros str >>= significant_value

-- The bytes of the address, in their order in memory. `ip++` steps over the NUL after the last.
unfoldable pub ip_bytes : ℕ → List ℕ → Outcome (Option (List ℕ))
ip_bytes zero ip = done (some [])
ip_bytes (suc n) ip = do
  found ← str_to_uint8 ip
  elim found [
    | none ↦ done none
    | some (b, after) ↦ do
      others ← ip_bytes n (drop 1 after)
      done (elim others [ none ↦ none | some bs ↦ some (b ∷ bs) ])
  ]

-- The number as its bytes in memory, 0 on an error.
unfoldable pub ip_str_to_uint32 : List ℕ → Outcome (List ℕ)
ip_str_to_uint32 ip = do
  found ← ip_bytes 4 ip
  done (elim found [ none ↦ 0 ∷ 0 ∷ 0 ∷ 0 ∷ [] | some bytes ↦ bytes ])

abbrev tens_and_units : ℕ → List ℕ
tens_and_units num =
    (if num / 10 == 0 then [] else ((char_0 + num / 10) ∷ [])) ++ ((char_0 + num % 10) ∷ [])

unfoldable pub uint8_to_str : ℕ → List ℕ
uint8_to_str num =
    if ltb 199 num
    then 50 ∷ tens_and_units (num - 200)
    else if ltb 99 num
    then 49 ∷ tens_and_units (num - 100)
    else tens_and_units num

-- `byte[0]` to `byte[3]`, the number's bytes in memory.
unfoldable pub uint32_to_ip_str : ℕ → ℕ → ℕ → ℕ → List ℕ
uint32_to_ip_str a b c d =
    uint8_to_str a
    ++ (char_dot ∷ (uint8_to_str b ++ (char_dot ∷ (uint8_to_str c ++ (char_dot ∷ uint8_to_str d)))))
