-- ===== src/Prelude/Text.antt =====
-- Text: Go's byte order on strings, lower case, and decimal numerals.
-- Letters are ASCII here, which is what MAC addresses hold.
use Prim.Native.Nat.{ℕ, zero, suc, ◌-◌, ◌/◌, ◌%◌}
use Prim.Native.Char.{Char, code}
use Prim.Native.String.{String, ◌++◌, count}
use mathlib.Core.Path.{◌≡◌, refl}
use mathlib.Core.Bool.{Bool, true, false, ◌&&◌, ◌||◌}
use mathlib.Core.List.{List, [], ◌∷◌}
use text.Mathlib.Text.{◌==◌, starts_with}
use cluster_api_provider_tin.Prelude.Tests.{ltb, leb, nat_eq, if◌then◌else◌}

abbrev pub codes : String → List ℕ
codes String.[] = []
codes (String.◌∷◌ c s) = code c ∷ codes s

-- `a < b`: the order of the UTF-8 bytes is that of the code points.
abbrev pub codes_lt : List ℕ → List ℕ → Bool
codes_lt xs [] = false
codes_lt [] (y ∷ ys) = true
codes_lt (x ∷ xs) (y ∷ ys) = ltb x y || (nat_eq x y && codes_lt xs ys)

unfoldable pub str_lt : String → String → Bool
str_lt a b = codes_lt (codes a) (codes b)

nth : String → ℕ → Char → Char
nth String.[] n d = d
nth (String.◌∷◌ c s) zero d = c
nth (String.◌∷◌ c s) (suc n) d = nth s n d

unfoldable pub lower_char : Char → Char
unfolding nth
lower_char c =
    if leb b'A' (code c) && leb (code c) b'Z'
    then nth "abcdefghijklmnopqrstuvwxyz" (code c - 65) c
    else c

-- `strings.ToLower`
unfoldable pub to_lower : String → String
unfolding lower_char
to_lower String.[] = String.[]
to_lower (String.◌∷◌ c s) = String.◌∷◌ (lower_char c) (to_lower s)

-- `strings.EqualFold`
abbrev pub equal_fold : String → String → Bool
equal_fold a b = to_lower a == to_lower b

digit : ℕ → Char
unfolding nth
digit n = nth "0123456789" n "0"

itoa_from : ℕ → ℕ → String → String
unfolding digit
itoa_from zero n s = s
itoa_from (suc f) n s =
    let s' = String.◌∷◌ (digit (n % 10)) s in
    let more = itoa_from f (n / 10) s' in if ltb n 10 then s' else more

-- `strconv.Itoa` of a number that is not negative; a number has at most as many digits as units,
-- or one.
unfoldable pub itoa : ℕ → String
unfolding itoa_from
itoa n = itoa_from (suc n) n ""

-- The rest of the text after the first `skip` characters, with every `old` replaced by `new`.
-- `old` is not empty, as the one text that the source replaces is not.
replace_from : String → String → ℕ → String → String
replace_from old new skip String.[] = String.[]
replace_from old new (suc skip) (String.◌∷◌ c s) = replace_from old new skip s
replace_from old new zero (String.◌∷◌ c s) = elim (starts_with (String.◌∷◌ c s) old) [
  | true ↦ new ++ replace_from old new (count old - 1) s
  | false ↦ String.◌∷◌ c (replace_from old new zero s)
]

-- `strings.ReplaceAll(s, old, new)`
unfoldable pub replace_all : String → String → String → String
unfolding replace_from
replace_all old new s = replace_from old new zero s

-- `strings.Replace(s, ":", "-", n)`
unfoldable pub dash_colons : ℕ → String → String
dash_colons n String.[] = String.[]
dash_colons zero (String.◌∷◌ c s) = String.◌∷◌ c s
dash_colons (suc n) (String.◌∷◌ c s) = elim (nat_eq (code c) b':') [
  | true ↦ String.◌∷◌ "-" (dash_colons n s)
  | false ↦ String.◌∷◌ c (dash_colons (suc n) s)
]

lower_mac : to_lower "AA:bB:01" ≡ "aa:bb:01"
unfolding to_lower
lower_mac = refl

itoa_128 : itoa 128 ≡ "128"
unfolding itoa
itoa_128 = refl

lt_macs : str_lt "00:01" "00:0a" ≡ true
unfolding str_lt
lt_macs = refl

replace_id : replace_all "ID" "x://a" "k=ID;IDI" ≡ "k=x://a;x://aI"
unfolding replace_all
replace_id = refl

dash_mac : dash_colons 5 "a:b:c:d:e:f:g" ≡ "a-b-c-d-e-f:g"
unfolding dash_colons
dash_mac = refl
