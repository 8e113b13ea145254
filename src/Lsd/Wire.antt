-- ===== src/Lsd/Wire.antt =====
-- A line of the module of src/mw/lsd.c: what comes in, with the polls that find nothing, and what is put
-- on it, with the polls that find the UART busy.
use mega_drive_megawifi_appl.Base.{
  ℕ, zero, Bool, true, false, Option, none, some, List, [], ◌∷◌, ◌++◌, ◌≡◌, refl, ap, sym, ◌∙◌,
  append_assoc, append-nil, ◌≤◌, suc, ◌-◌, ◌+◌, length, arith,
}
use mega_drive_megawifi_appl.Lsd.Polling.{Serial, puts}

-- `rx`: the bytes to come, and `none` for each poll before one. `tx`: the answers of the first polls
-- whether a byte can be put, which then always can. `out`: what was put.
pub record Wire : Type 0 where
  pub rx : List (Option ℕ)
  pub tx : List Bool
  pub out : List ℕ

abbrev pub rx_poll : List (Option ℕ) → Bool × List (Option ℕ)
rx_poll [] = (false, [])
rx_poll (none ∷ rx) = (false, rx)
rx_poll (some b ∷ rx) = (true, some b ∷ rx)

abbrev pub rx_byte : List (Option ℕ) → ℕ × List (Option ℕ)
rx_byte [] = (0, [])
rx_byte (none ∷ rx) = (0, rx)
rx_byte (some b ∷ rx) = (b, rx)

abbrev pub tx_poll : List Bool → Bool × List Bool
tx_poll [] = (true, [])
tx_poll (ready ∷ tx) = (ready, tx)

abbrev pub wire : Serial Wire
wire = record {
  rx_ready = λ w. ((rx_poll w.rx).0, record w { rx = (rx_poll w.rx).1 });
  getc = λ w. ((rx_byte w.rx).0, record w { rx = (rx_byte w.rx).1 });
  tx_ready = λ w. ((tx_poll w.tx).0, record w { tx = (tx_poll w.tx).1 });
  putc = λ b w. record w { out = w.out ++ (b ∷ []) };
}

-- The bytes that come in.
abbrev pub heard : List (Option ℕ) → List ℕ
heard [] = []
heard (none ∷ rx) = heard rx
heard (some b ∷ rx) = b ∷ heard rx

pub puts-wire : (bytes : List ℕ) (w : Wire) → puts wire bytes w ≡ record w { out = w.out ++ bytes }
puts-wire [] w = ap (λ l. record w { out = l }) (sym (append-nil w.out))
puts-wire (b ∷ bytes) w =
    puts-wire bytes (record w { out = w.out ++ (b ∷ []) })
    ∙ ap (λ l. record w { out = l }) (append_assoc w.out (b ∷ []) bytes)

-- A line on which these bytes come, so many polls finding nothing before each.
abbrev pub spread : List ℕ → List ℕ → List (Option ℕ)
spread gaps [] = []
spread [] (b ∷ bytes) = some b ∷ spread [] bytes
spread (zero ∷ gaps) (b ∷ bytes) = some b ∷ spread gaps bytes
spread (suc gap ∷ gaps) (b ∷ bytes) = none ∷ spread (gap ∷ gaps) (b ∷ bytes)

abbrev pub sum : List ℕ → ℕ
sum [] = 0
sum (n ∷ ns) = n + sum ns

pub heard-spread : (gaps bytes : List ℕ) → heard (spread gaps bytes) ≡ bytes
heard-spread [] [] = refl
heard-spread (gap ∷ gaps) [] = refl
heard-spread [] (b ∷ bytes) = ap (λ l. b ∷ l) (heard-spread [] bytes)
heard-spread (zero ∷ gaps) (b ∷ bytes) = ap (λ l. b ∷ l) (heard-spread gaps bytes)
heard-spread (suc gap ∷ gaps) (b ∷ bytes) = heard-spread (gap ∷ gaps) (b ∷ bytes)

pub length-spread : (gaps bytes : List ℕ) → length (spread gaps bytes) ≤ sum gaps + length bytes
length-spread [] [] = omega arith
length-spread (gap ∷ gaps) [] = omega arith
length-spread [] (b ∷ bytes) = omega (arith, length-spread [] bytes)
length-spread (zero ∷ gaps) (b ∷ bytes) = omega (arith, length-spread gaps bytes)
length-spread (suc gap ∷ gaps) (b ∷ bytes) = omega (arith, length-spread (gap ∷ gaps) (b ∷ bytes))

pub suc-minus_one : (n : ℕ) → 1 ≤ n → n ≡ suc (n - 1)
suc-minus_one n h = omega arith
