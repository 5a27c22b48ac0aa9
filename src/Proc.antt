-- ===== src/Proc.antt =====
-- What internal/master/sysinfo.go and linux.go use of Go's strings and strconv on files of /proc,
-- as byte strings. Their white space is ASCII.
use open_ctrl.Base.{
  ℕ, ◌+◌, ◌-◌, ◌*◌, ◌≤◌, arith, Bool, true, false, ◌&&◌, ◌||◌, Option, none, some, List, [], ◌∷◌,
  ◌==◌, leb, ltb, if◌then◌else◌, max_uint64,
}

abbrev pub Bytes : Type 0
Bytes = List ℕ

abbrev pub bytes_eq : Bytes → Bytes → Bool
bytes_eq [] [] = true
bytes_eq (a ∷ xs) (b ∷ ys) = a == b && bytes_eq xs ys
bytes_eq _ _ = false

-- strings.HasPrefix
abbrev pub has_prefix : Bytes → Bytes → Bool
has_prefix xs [] = true
has_prefix [] (p ∷ ps) = false
has_prefix (x ∷ xs) (p ∷ ps) = x == p && has_prefix xs ps

-- The first piece of a list that is not empty takes one byte more.
abbrev pub onto_first : ℕ → List Bytes → List Bytes
onto_first b [] = (b ∷ []) ∷ []
onto_first b (piece ∷ pieces) = (b ∷ piece) ∷ pieces

-- strings.Split and SplitSeq by newlines: one piece more than there are newlines.
unfoldable pub lines : Bytes → List Bytes
lines [] = [] ∷ []
lines (b ∷ r) = let rest = lines r in if b == 0x0a then [] ∷ rest else onto_first b rest

abbrev pub is_space : ℕ → Bool
is_space b = b == 0x20 || (leb 9 b && leb b 13)

-- strings.Fields; `inside` says that the byte before belongs to a field, which goes on.
unfoldable pub fields_from : Bool → Bytes → List Bytes
fields_from inside [] = if inside then [] ∷ [] else []
fields_from inside (b ∷ r) = elim (is_space b) [
  | true ↦ let rest = fields_from false r in if inside then [] ∷ rest else rest
  | false ↦ onto_first b (fields_from true r)
]

abbrev pub fields : Bytes → List Bytes
fields xs = fields_from false xs

-- How strconv.ParseUint(…, 10, 64) ends.
pub data Parsed : Type 0 where
  parsed : ℕ → Parsed
  bad_syntax out_of_range : Parsed

unfoldable pub parse_from : ℕ → Bytes → Parsed
parse_from n [] = parsed n
parse_from n (b ∷ r) = elim (leb 0x30 b && leb b 0x39) [
  | false ↦ bad_syntax
  | true ↦ elim (ltb max_uint64 (n * 10 + (b - 0x30))) [
    | true ↦ out_of_range
    | false ↦ parse_from (n * 10 + (b - 0x30)) r
  ]
]

unfoldable pub parse_uint : Bytes → Parsed
parse_uint [] = bad_syntax
parse_uint (b ∷ r) = parse_from 0 (b ∷ r)

-- The value that comes with an error: 0, or the greatest.
abbrev pub value_of : Parsed → ℕ
value_of (parsed n) = n
value_of bad_syntax = 0
value_of out_of_range = max_uint64

-- No value, if there is an error.
abbrev pub if_parsed : Parsed → Option ℕ
if_parsed (parsed n) = some n
if_parsed _ = none

parse_from-le : (n : ℕ) (xs : Bytes) → n ≤ max_uint64 → value_of (parse_from n xs) ≤ max_uint64
unfolding parse_from
parse_from-le n [] h = h
parse_from-le n (b ∷ r) h = ground (arith, parse_from-le (n * 10 + (b - 0x30)) r)

-- What is parsed fits a uint64.
pub parse_uint-le : (xs : Bytes) → value_of (parse_uint xs) ≤ max_uint64
unfolding parse_uint
parse_uint-le [] = omega arith
parse_uint-le (b ∷ r) = parse_from-le 0 (b ∷ r) (omega arith)
