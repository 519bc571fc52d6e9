-- ===== src/Restctl/Time.antt =====
-- `normalizeTime` of cmd/restctl/main.go, with the two functions of strconv that it and `translate`
-- call at base 10. A text is the list of its characters' codes; of the last byte the code asks only
-- whether it is one of three ASCII letters, which the last character answers as well.
pub mod RoundTrip
use Prim.Native.Char.{code}
use Prim.Native.String
use ipman.Prelude.{
  ℕ, zero, suc, ◌+◌, ◌-◌, ◌*◌, ◌/◌, ◌%◌, ◌^◌, String, Bool, true, false, ◌&&◌, ltb, leb, nat_eq,
  List, [], ◌∷◌, Option, none, some, if◌then◌else◌,
}
use ipman.Errors.{Try, done, fails, panics, message, ◌>>=◌}
use ipman.Api.{ℤ, pos, negsuc}

abbrev pub codes : String → List ℕ
codes String.[] = []
codes (String.◌∷◌ c s) = code c ∷ codes s

-- The digits of a text, behind the number that was read so far.
unfoldable pub scan_digits : List ℕ → ℕ → Option ℕ
scan_digits [] n = some n
scan_digits (c ∷ s) n =
    let rest = scan_digits s (n * 10 + (c - b'0')) in
    if leb b'0' c && leb c b'9' then rest else none

unfoldable pub parse_digits : List ℕ → Option ℕ
unfolding scan_digits
parse_digits [] = none
parse_digits (c ∷ s) = scan_digits (c ∷ s) 0

abbrev pub below_bound : Option ℕ → Option ℤ
below_bound none = none
below_bound (some n) = if ltb n (2 ^ 63) then some (pos n) else none

abbrev pub negated : Option ℕ → Option ℤ
negated none = none
negated (some zero) = some (pos 0)
negated (some (suc n)) = if ltb n (2 ^ 63) then some (negsuc n) else none

-- strconv.ParseInt(s, 10, 64); an error is none.
unfoldable pub parse_int : List ℕ → Option ℤ
unfolding parse_digits
parse_int [] = none
parse_int (c ∷ s) =
    if nat_eq c b'-'
    then negated (parse_digits s)
    else if nat_eq c b'+'
    then below_bound (parse_digits s)
    else below_bound (parse_digits (c ∷ s))

-- The digits of n in front of `out`; n rounds are enough.
unfoldable pub emit_digits : ℕ → ℕ → List ℕ → List ℕ
emit_digits zero n out = out
emit_digits (suc fuel) n out = elim (nat_eq n 0) [
  | true ↦ out
  | false ↦ emit_digits fuel (n / 10) ((b'0' + n % 10) ∷ out)
]

unfoldable pub format_nat : ℕ → List ℕ
unfolding emit_digits
format_nat n = if nat_eq n 0 then b'0' ∷ [] else emit_digits n n []

-- strconv.FormatInt(n, 10)
unfoldable pub format_int : ℤ → List ℕ
unfolding format_nat
format_int (pos n) = format_nat n
format_int (negsuc n) = b'-' ∷ format_nat (suc n)

-- The int64 with the low 64 bits of n.
abbrev pub from_bits : ℕ → ℤ
from_bits w = if ltb w (2 ^ 63) then pos w else negsuc (2 ^ 64 - 1 - w)

unfoldable pub int64 : ℤ → ℤ
int64 (pos n) = from_bits (n % 2 ^ 64)
int64 (negsuc n) = from_bits (2 ^ 64 - 1 - n % 2 ^ 64)

abbrev scale : ℤ → ℕ → ℤ
scale (pos n) k = pos (n * k)
scale (negsuc n) k = negsuc (suc n * k - 1)

-- A product of two ints, which wraps around.
unfoldable pub times : ℤ → ℕ → ℤ
unfolding int64
times n k = int64 (scale n k)

-- time[len(time)-1]
unfoldable pub last_code : List ℕ → Option ℕ
last_code [] = none
last_code (c ∷ []) = some c
last_code (c ∷ d ∷ s) = last_code (d ∷ s)

-- time[:len(time)-1]
unfoldable pub drop_last : List ℕ → List ℕ
drop_last [] = []
drop_last (c ∷ []) = []
drop_last (c ∷ d ∷ s) = c ∷ drop_last (d ∷ s)

abbrev cons_unless : ℕ → List ℕ → List ℕ
cons_unless c [] = if nat_eq c b's' then [] else c ∷ []
cons_unless c (d ∷ s) = c ∷ d ∷ s

-- strings.TrimRight(time, "s")
unfoldable pub trim_right : List ℕ → List ℕ
trim_right [] = []
trim_right (c ∷ s) = cons_unless c (trim_right s)

abbrev pub or_error : Option ℤ → Try ℤ
or_error none = fails (message "strconv.ParseInt: parsing")
or_error (some n) = done n

abbrev pub by_unit : List ℕ → Option ℕ → Try ℤ
by_unit time none = panics
by_unit time (some c) =
    if nat_eq c b'm'
    then or_error (parse_int (drop_last time)) >>= (λ n. done (times n 60))
    else if nat_eq c b'h'
    then or_error (parse_int (drop_last time)) >>= (λ n. done (times (times n 60) 60))
    else or_error (parse_int (trim_right time))

-- normalizeTime, which panics on the empty text.
unfoldable pub normalize_time : List ℕ → Try ℤ
unfolding last_code drop_last trim_right parse_int times
normalize_time time = by_unit time (last_code time)
