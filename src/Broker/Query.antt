-- ===== src/Broker/Query.antt =====
-- Query parameters of Express, `parseInt`, and the texts that broker/router.ts tests.
use dicode_relay.Common.{
  ℕ, zero, suc, or_else, ◌+◌, ◌-◌, ◌*◌, String, List, [], ◌∷◌, Option, none, some, Bool, true,
  false, ◌&&◌, ◌||◌, if◌then◌else◌, ◌==◌, nat_eq, leb, length, Dict, get, string_eq, ℤ, pos, negsuc,
}
use dicode_relay.Shared.Preimage.{codes}

-- string | string[]
pub data QueryValue : Type 0 where
  one : String → QueryValue
  many : List String → QueryValue

abbrev pub Query : Type 0
Query = Dict String QueryValue

unfoldable pub head : List String → Option String
head [] = none
head (x ∷ xs) = some x

unfoldable pub first : QueryValue → Option String
first (one s) = some s
first (many ss) = head ss

-- `Array.isArray(query.k) ? query.k[0] : query.k`
unfoldable pub param : String → Query → Option String
param k q = elim (get k q) [ none ↦ none | some v ↦ first v ]

unfoldable pub is_hex_digit : ℕ → Bool
is_hex_digit c = (leb 48 c && leb c 57) || (leb 97 c && leb c 102)

unfoldable pub all_hex : List ℕ → Bool
all_hex [] = true
all_hex (c ∷ cs) = is_hex_digit c && all_hex cs

-- /^[0-9a-f]{64}$/
unfoldable pub is_relay_uuid : String → Bool
is_relay_uuid s = length (codes s) == 64 && all_hex (codes s)

unfoldable pub is_space : ℕ → Bool
is_space c =
    (leb 9 c && leb c 13)
    || (c == 32)
    || (c == 160)
    || (c == 5760)
    || (leb 8192 c && leb c 8202)
    || (leb 8232 c && leb c 8233)
    || (c == 8239)
    || (c == 8287)
    || (c == 12288)
    || (c == 65279)

unfoldable pub skip_spaces : List ℕ → List ℕ
skip_spaces [] = []
skip_spaces (c ∷ cs) = let rest = skip_spaces cs in if is_space c then rest else c ∷ cs

unfoldable pub is_digit : ℕ → Bool
is_digit c = leb 48 c && leb c 57

-- The number that the leading digits name, if there is one.
unfoldable pub digits : Option ℕ → List ℕ → Option ℕ
digits n [] = n
digits n (c ∷ cs) =
    let rest = digits (some (10 * or_else n 0 + (c - 48))) cs in if is_digit c then rest else n

unfoldable pub negate : ℕ → ℤ
negate zero = pos 0
negate (suc n) = negsuc n

unfoldable pub signed : Bool → Option ℕ → Option ℤ
signed negative none = none
signed true (some n) = some (negate n)
signed false (some n) = some (pos n)

unfoldable pub parse_signed : List ℕ → Option ℤ
parse_signed [] = none
parse_signed (c ∷ cs) =
    if c == 45
    then signed true (digits none cs)
    else if c == 43
    then signed false (digits none cs)
    else signed false (digits none (c ∷ cs))

-- `parseInt(s, 10)`, with none for NaN. The result is exact, where a double is so up to 2^53.
unfoldable pub parse_int : String → Option ℤ
parse_int s = parse_signed (skip_spaces (codes s))
