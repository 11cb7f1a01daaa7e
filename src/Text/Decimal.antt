-- ===== src/Text/Decimal.antt =====
-- `u16::to_string` and `str::parse::<u16>`.
use adb_daemon_rs.Base.{
  ℕ, zero, suc, ◌+◌, ◌-◌, ◌*◌, ◌/◌, ◌%◌, ◌≤◌, ◌<◌, ◌≡◌, ◌≢◌, refl, ◌∙◌, ap, ◌⊎◌, inl, inr, [], ◌∷◌,
  ◌++◌, append_assoc, append-nil, sym, Bool, false, ◌&&◌, Bytes, Option, none, some, ltb, leb, ◌==◌,
  nat_eq, if◌then◌else◌, Bool-cases, if_cases, arith, All, All-append,
}

-- The decimal digits of a number below `10 ^ fuel`.
unfoldable pub decimal : ℕ → ℕ → Bytes
decimal zero n = []
decimal (suc fuel) n =
    let rest = decimal fuel (n / 10) in
    if ltb n 10 then (b'0' + n) ∷ [] else rest ++ (b'0' + n % 10) ∷ []

-- A `u16` has five digits at most.
unfoldable pub print_u16 : ℕ → Bytes
unfolding decimal
print_u16 n = decimal 5 n

abbrev is_digit : ℕ → Bool
is_digit c = leb b'0' c && leb c b'9'

scan : Bytes → ℕ → Option ℕ
scan [] n = some n
scan (c ∷ s) n =
    let m = n * 10 + (c - b'0') in
    if is_digit c then (if ltb 65535 m then none else scan s m) else none

-- An optional sign `+`, and then at least one digit.
unfoldable pub parse_u16 : Bytes → Option ℕ
unfolding scan
parse_u16 [] = none
parse_u16 (c ∷ []) = scan (c ∷ []) 0
parse_u16 (c ∷ d ∷ s) = if c == b'+' then scan (d ∷ s) 0 else scan (c ∷ d ∷ s) 0

abbrev Fits : ℕ → ℕ → Type 0
Fits zero n = ⊥
Fits (suc fuel) n = (n < 10) ⊎ Fits fuel (n / 10)

scan_digit :
    (n : ℕ) (rest : Bytes) → n ≤ 65535 → scan ((b'0' + n % 10) ∷ rest) (n / 10) ≡ scan rest n
unfolding scan
scan_digit n rest h = ground arith

scan-decimal :
    (fuel n : ℕ) (rest : Bytes)
    → n ≤ 65535
    → Fits fuel n
    → scan (decimal fuel n ++ rest) 0 ≡ scan rest n
unfolding decimal
scan-decimal zero n rest h f = absurd f
scan-decimal (suc fuel) n rest h f = elim (Bool-cases (ltb n 10)) [
  | inl e ↦ rw e (scan_small n rest (ground arith))
  | inr e ↦
      rw (e, append_assoc)
        (scan-decimal fuel (n / 10) _ (omega arith) (smaller f e) ∙ scan_digit n rest h)
]
  where
    scan_small : (n : ℕ) (rest : Bytes) → n < 10 → scan ((b'0' + n) ∷ rest) 0 ≡ scan rest n
    scan_small n rest h = unfold scan in ground arith

    smaller : Fits (suc fuel) n → ltb n 10 ≡ false → Fits fuel (n / 10)
    smaller (inl l) e = absurd (ground arith)
    smaller (inr g) e = g

-- Text that does not start with a sign.
abbrev Leads : Bytes → Type 0
Leads [] = ⊥
Leads (c ∷ s) = c ≢ b'+'

Leads-append : (s t : Bytes) → Leads s → Leads (s ++ t)
Leads-append [] t h = absurd h
Leads-append (c ∷ s) t h = h

decimal-Leads : (fuel n : ℕ) → Fits fuel n → Leads (decimal fuel n)
unfolding decimal
decimal-Leads zero n f = absurd f
decimal-Leads (suc fuel) n (inl l) =
    if_cases Leads (ltb n 10) _ _ (λ e. omega arith) (λ e. absurd (ground arith))
decimal-Leads (suc fuel) n (inr f) =
    if_cases Leads (ltb n 10) _ _ (λ e h. ground arith)
      (λ e. Leads-append (decimal fuel (n / 10)) _ (decimal-Leads fuel (n / 10) f))

parse_u16-Leads : (s : Bytes) → Leads s → parse_u16 s ≡ scan s 0
unfolding parse_u16
parse_u16-Leads [] h = absurd h
parse_u16-Leads (c ∷ []) h = refl
parse_u16-Leads (c ∷ d ∷ s) h = ground arith

Fits-five : (n : ℕ) → n ≤ 65535 → Fits 5 n
Fits-five n h = omega arith

-- Every port is read back from its print.
pub parse_u16-print_u16 : (n : ℕ) → n ≤ 65535 → parse_u16 (print_u16 n) ≡ some n
unfolding print_u16 scan
parse_u16-print_u16 n h =
    parse_u16-Leads (decimal 5 n) (decimal-Leads 5 n (Fits-five n h))
    ∙ ap (λ s. scan s 0) (sym (append-nil (decimal 5 n)))
    ∙ scan-decimal 5 n [] h (Fits-five n h)

scan-le : (s : Bytes) (n r : ℕ) → n ≤ 65535 → scan s n ≡ some r → r ≤ 65535
unfolding scan
scan-le [] n r h e = ground arith
scan-le (c ∷ s) n r h e = ground (arith, scan-le s (n * 10 + (c - b'0')) r)

-- What is read is a port.
pub parse_u16-le : (s : Bytes) (r : ℕ) → parse_u16 s ≡ some r → r ≤ 65535
unfolding parse_u16
parse_u16-le [] r e = cc
parse_u16-le (c ∷ []) r e = scan-le (c ∷ []) 0 r (omega arith) e
parse_u16-le (c ∷ d ∷ s) r e = ground (arith, scan-le (d ∷ s) 0 r, scan-le (c ∷ d ∷ s) 0 r)

abbrev pub IsDigit : ℕ → Type 0
IsDigit c = (b'0' ≤ c) × (c ≤ b'9')

decimal-All : (fuel n : ℕ) → All IsDigit (decimal fuel n)
unfolding decimal
decimal-All zero n = tt
decimal-All (suc fuel) n =
    if_cases (All IsDigit) (ltb n 10) _ _ (λ e. ground arith)
      (λ e. All-append IsDigit (decimal fuel (n / 10)) _ (decimal-All fuel (n / 10)) (omega arith))

pub print_u16-All : (n : ℕ) → All IsDigit (print_u16 n)
unfolding print_u16
print_u16-All n = decimal-All 5 n
