-- ===== src/Restctl/Time/RoundTrip.antt =====
-- What is printed is read back, and a time is read in its unit.
use ipman.Prelude.{
  ℕ, zero, suc, ◌+◌, ◌*◌, ◌/◌, ◌%◌, ◌^◌, ◌≤◌, ◌<◌, ◌≡◌, ◌≢◌, refl, List, [], ◌∷◌, ◌++◌, some, All,
  arith, ap, ◌∙◌,
}
use ipman.Errors.{done}
use ipman.Api.{pos}
use ipman.Restctl.Time.{
  scan_digits, parse_digits, parse_int, emit_digits, format_nat, int64, times, last_code, drop_last,
  trim_right, normalize_time,
}

abbrev IsDigit : ℕ → Type 0
IsDigit c = (b'0' ≤ c) × (c ≤ b'9')

scan_digits-emit_digits :
    (fuel n : ℕ) (out : List ℕ)
    → n ≤ fuel
    → scan_digits (emit_digits fuel n out) 0 ≡ scan_digits out n
unfolding scan_digits emit_digits
scan_digits-emit_digits zero n out h = ground arith
scan_digits-emit_digits (suc fuel) n out h =
    ground (arith, scan_digits-emit_digits fuel (n / 10) ((b'0' + n % 10) ∷ out))

emit_digits-IsDigit :
    (fuel n : ℕ) (out : List ℕ) → All IsDigit out → All IsDigit (emit_digits fuel n out)
unfolding emit_digits
emit_digits-IsDigit zero n out h = h
emit_digits-IsDigit (suc fuel) n out h =
    ground (arith, emit_digits-IsDigit fuel (n / 10) ((b'0' + n % 10) ∷ out))

emit_digits-ne-nil : (fuel n : ℕ) (out : List ℕ) → out ≢ [] → emit_digits fuel n out ≢ []
unfolding emit_digits
emit_digits-ne-nil zero n out h = h
emit_digits-ne-nil (suc fuel) n out h =
    ground (arith, h, emit_digits-ne-nil fuel (n / 10) ((b'0' + n % 10) ∷ out) (λ e. cc))

parse_digits-scan_digits : (s : List ℕ) → s ≢ [] → parse_digits s ≡ scan_digits s 0
unfolding parse_digits
parse_digits-scan_digits [] h = absurd (h refl)
parse_digits-scan_digits (c ∷ s) h = refl

format_nat-IsDigit : (n : ℕ) → All IsDigit (format_nat n)
unfolding format_nat
format_nat-IsDigit n = ground (arith, emit_digits-IsDigit n n [])

emit_digits_positive : (n : ℕ) → n ≢ 0 → emit_digits n n [] ≢ []
unfolding emit_digits
emit_digits_positive zero h = absurd (h refl)
emit_digits_positive (suc n) h =
    ground (arith, emit_digits-ne-nil n (suc n / 10) ((b'0' + suc n % 10) ∷ []) (λ e. cc))

parse_digits-format_nat : (n : ℕ) → parse_digits (format_nat n) ≡ some n
unfolding format_nat parse_digits scan_digits
parse_digits-format_nat zero = ground arith
parse_digits-format_nat (suc n) = ground (
  arith,
  parse_digits-scan_digits (emit_digits (suc n) (suc n) [])
      (emit_digits_positive (suc n) (λ e. omega arith)),
  scan_digits-emit_digits (suc n) (suc n) [] (omega arith),
)

parse_int-positive :
    (xs : List ℕ) (n : ℕ)
    → All IsDigit xs
    → parse_digits xs ≡ some n
    → n < 2 ^ 63
    → parse_int xs ≡ some (pos n)
unfolding parse_int
parse_int-positive [] n h e b = cc
parse_int-positive (c ∷ s) n h e b = ground arith

append_nil : (xs : List ℕ) → xs ++ [] ≡ xs
append_nil [] = refl
append_nil (x ∷ xs) = ap (λ s. x ∷ s) (append_nil xs)

last_code-append :
    (xs : List ℕ) (c : ℕ) → (last_code (xs ++ c ∷ []) ≡ some c) × (drop_last (xs ++ c ∷ []) ≡ xs)
unfolding last_code drop_last
last_code-append [] c = (refl, refl)
last_code-append (x ∷ []) c = (refl, refl)
last_code-append (x ∷ y ∷ xs) c = let (a, b) = last_code-append (y ∷ xs) c in (a, ap (λ s. x ∷ s) b)

trim_right-digits :
    (xs : List ℕ) → All IsDigit xs → (trim_right xs ≡ xs) × (trim_right (xs ++ b's' ∷ []) ≡ xs)
unfolding trim_right
trim_right-digits [] h = (refl, refl)
trim_right-digits (x ∷ []) h = ground arith
trim_right-digits (x ∷ y ∷ xs) (hx, hs) =
    let (a, b) = trim_right-digits (y ∷ xs) hs in (rw a refl, rw b refl)

last_code-digits :
    (xs : List ℕ) → xs ≢ [] → All IsDigit xs → (c : ℕ) × (last_code xs ≡ some c) × IsDigit c
unfolding last_code
last_code-digits [] n h = absurd (n refl)
last_code-digits (x ∷ []) n h = (x, refl, h.0)
last_code-digits (x ∷ y ∷ xs) n h = last_code-digits (y ∷ xs) (λ e. cc) h.1

format_nat-ne-nil : (n : ℕ) → format_nat n ≢ []
unfolding parse_digits
format_nat-ne-nil n e = cc (rw e at (parse_digits-format_nat n))

parse_int-format_nat : (n : ℕ) → n < 2 ^ 63 → parse_int (format_nat n) ≡ some (pos n)
parse_int-format_nat n h =
    parse_int-positive (format_nat n) n (format_nat-IsDigit n) (parse_digits-format_nat n) h

times-pos : (n k : ℕ) → n * k < 2 ^ 63 → times (pos n) k ≡ pos (n * k)
unfolding times int64
times-pos n k h = ground arith

pub data TimeUnit : Type 0 where
  plain seconds minutes hours : TimeUnit

abbrev pub suffix : TimeUnit → List ℕ
suffix plain = []
suffix seconds = b's' ∷ []
suffix minutes = b'm' ∷ []
suffix hours = b'h' ∷ []

abbrev pub in_seconds : TimeUnit → ℕ
in_seconds plain = 1
in_seconds seconds = 1
in_seconds minutes = 60
in_seconds hours = 3600

-- A time in hours, minutes or seconds, or without a unit, is read as its number of seconds, if that
-- number fits an int64.
pub normalize_time-format_nat :
    (u : TimeUnit) (n : ℕ)
    → n * in_seconds u < 2 ^ 63
    → normalize_time (format_nat n ++ suffix u) ≡ done (pos (n * in_seconds u))
unfolding normalize_time
normalize_time-format_nat plain n h =
    let digits = format_nat-IsDigit n in
    let (c, at, d) = last_code-digits (format_nat n) (format_nat-ne-nil n) digits in
    let read = parse_int-format_nat n (omega arith) in
    rw (append_nil (format_nat n))
      (ground (arith, at, (trim_right-digits (format_nat n) digits).0, read))
normalize_time-format_nat seconds n h =
    let (last, rest) = last_code-append (format_nat n) b's' in
    let short = (trim_right-digits (format_nat n) (format_nat-IsDigit n)).1 in
    rw (last, short, parse_int-format_nat n (omega arith)) (ap (λ m. done (pos m)) (omega arith))
normalize_time-format_nat minutes n h =
    let (last, rest) = last_code-append (format_nat n) b'm' in
    rw (last, rest, parse_int-format_nat n (omega arith)) (ap done (times-pos n 60 h))
normalize_time-format_nat hours n h =
    let (last, rest) = last_code-append (format_nat n) b'h' in
    let minutes_fit = times-pos n 60 (omega arith) in
    rw (last, rest, parse_int-format_nat n (omega arith))
      (ap done (rw minutes_fit (times-pos (n * 60) 60 (omega arith) ∙ ap pos (omega arith))))
