-- ===== src/Config/Text.antt =====
-- What internal/config/config.go uses of the packages strings and strconv, on byte strings.
use distributed_kv.Common.{
  ℕ, ◌+◌, ◌-◌, ◌*◌, ◌^◌, Bool, true, false, ◌&&◌, ◌||◌, List, [], ◌∷◌, Bytes, codes, Option, none,
  some, Error, other, Result, ok, err, ◌>>=◌, if◌then◌else◌, ltb, leb, ◌==◌, eq_bytes, u64_mod,
  sub64,
}
use mathlib.Core.List.{reverse}

-- `x` in front of the first of the parts.
abbrev pub onto_first : ℕ → List Bytes → List Bytes
onto_first x [] = (x ∷ []) ∷ []
onto_first x (p ∷ ps) = (x ∷ p) ∷ ps

-- strings.Split(s, sep) at a separator of one byte
unfoldable pub split : ℕ → Bytes → List Bytes
split sep [] = [] ∷ []
split sep (x ∷ s) = let rest = split sep s in if x == sep then [] ∷ rest else onto_first x rest

abbrev pub onto_left : ℕ → Option (Bytes × Bytes) → Option (Bytes × Bytes)
onto_left x none = none
onto_left x (some (a, b)) = some (x ∷ a, b)

-- strings.SplitN(s, sep, 2): the two parts, or none if there is but one
unfoldable pub split_first : ℕ → Bytes → Option (Bytes × Bytes)
split_first sep [] = none
split_first sep (x ∷ s) =
    let rest = split_first sep s in if x == sep then some ([], s) else onto_left x rest

abbrev pub is_space : ℕ → Bool
is_space c = c == 32 || (leb 9 c && leb c 13)

unfoldable pub drop_spaces : Bytes → Bytes
drop_spaces [] = []
drop_spaces (x ∷ s) = let rest = drop_spaces s in if is_space x then rest else x ∷ s

-- strings.TrimSpace, for the white space of ASCII
unfoldable pub trim_space : Bytes → Bytes
unfolding drop_spaces
trim_space s = reverse (drop_spaces (reverse (drop_spaces s)))

abbrev pub syntax_error : Error
syntax_error = other (codes "invalid syntax")

abbrev pub range_error : Error
range_error = other (codes "value out of range")

-- The digits of a number, behind the value `n` of those before them.
unfoldable pub digits : ℕ → Bytes → Option ℕ
digits n [] = some n
digits n (c ∷ s) =
    let rest = digits (10 * n + (c - b'0')) s in if leb b'0' c && leb c b'9' then rest else none

abbrev pub decimal : Bytes → Option ℕ
decimal [] = none
decimal (c ∷ s) = digits 0 (c ∷ s)

abbrev pub below : ℕ → Option ℕ → Result ℕ
below bound none = err syntax_error
below bound (some n) = if ltb n bound then ok n else err range_error

-- strconv.ParseUint(s, 10, 64)
unfoldable pub parse_uint : Bytes → Result ℕ
unfolding digits
parse_uint s = below u64_mod (decimal s)

-- strconv.Atoi, whose int64 is in two's complement
unfoldable pub atoi : Bytes → Result ℕ
unfolding digits
atoi [] = err syntax_error
atoi (c ∷ s) =
    if c == b'-'
    then (below (2 ^ 63 + 1) (decimal s) >>= λ n. ok (sub64 0 n))
    else if c == b'+'
    then below (2 ^ 63) (decimal s)
    else below (2 ^ 63) (decimal (c ∷ s))

unfoldable pub is_one_of : List Bytes → Bytes → Bool
is_one_of [] s = false
is_one_of (t ∷ ts) s = eq_bytes t s || is_one_of ts s

abbrev pub true_texts : List Bytes
true_texts = codes "1" ∷ codes "t" ∷ codes "T" ∷ codes "TRUE" ∷ codes "true" ∷ codes "True" ∷ []

abbrev pub false_texts : List Bytes
false_texts = codes "0" ∷ codes "f" ∷ codes "F" ∷ codes "FALSE" ∷ codes "false" ∷ codes "False" ∷ []

-- strconv.ParseBool
unfoldable pub parse_bool : Bytes → Result Bool
unfolding is_one_of
parse_bool s =
    if is_one_of true_texts s
    then ok true
    else if is_one_of false_texts s
    then ok false
    else err syntax_error
