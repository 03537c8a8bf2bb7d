-- ===== src/Build/Suffix.antt =====
-- Which texts of pkg/build/build.go end with "+dirty".
use cluster_api_provider_tin.Prelude.{
  ℕ, ◌≡◌, refl, sym, ap, ◌∙◌, inl, inr, Bool, true, false, List, [], ◌∷◌, ◌++◌, arith, All, ◌≢◌,
  Bool-cases, if◌then◌else◌,
}
use cluster_api_provider_tin.Build.{is_hex, dirty, strip, is_nothing, has_suffix}

-- Whether a text ends with a character of a hash.
abbrev pub ends_hex : List ℕ → Bool
ends_hex [] = false
ends_hex (c ∷ []) = is_hex c
ends_hex (c ∷ d ∷ s) = ends_hex (d ∷ s)

ends_hex-append : (s t : List ℕ) → ends_hex t ≡ true → ends_hex (s ++ t) ≡ true
ends_hex-append [] t h = h
ends_hex-append (c ∷ []) [] h = ground (arith, h)
ends_hex-append (c ∷ []) (d ∷ t) h = h
ends_hex-append (c ∷ d ∷ s) t h = ends_hex-append (d ∷ s) t h

All-ends_hex : (s : List ℕ) → s ≢ [] → All (λ c. is_hex c ≡ true) s → ends_hex s ≡ true
All-ends_hex [] n h = absurd (n refl)
All-ends_hex (c ∷ []) n (y, h) = y
All-ends_hex (c ∷ d ∷ s) n (y, h) = All-ends_hex (d ∷ s) (λ p. ground (arith, p)) h

strip-nothing : (l s : List ℕ) → is_nothing (strip l s) ≡ true → s ≡ l
unfolding strip
strip-nothing [] [] h = refl
strip-nothing [] (c ∷ s) h = ground (arith, h)
strip-nothing (x ∷ l) [] h = ground (arith, h)
strip-nothing (x ∷ l) (c ∷ s) h = ground (arith, h, strip-nothing l s)

dirty-ends : ends_hex dirty ≡ false
unfolding is_hex
dirty-ends = refl

hex_no_match : (s : List ℕ) → ends_hex s ≡ true → is_nothing (strip dirty s) ≡ false
hex_no_match s h = elim (Bool-cases (is_nothing (strip dirty s))) [
  | inr n ↦ n
  | inl y ↦
      let differs = sym h ∙ ap ends_hex (strip-nothing dirty s y) ∙ dirty-ends in
      absurd (ground (arith, differs))
]

-- A text that ends with a character of a hash does not end with "+dirty".
hex_not_dirty : (s : List ℕ) → ends_hex s ≡ true → has_suffix dirty s ≡ false
unfolding has_suffix
hex_not_dirty [] h = ground (arith, h)
hex_not_dirty (c ∷ []) h = rw (hex_no_match (c ∷ []) h) refl
hex_not_dirty (c ∷ d ∷ s) h = rw (hex_no_match (c ∷ d ∷ s) h, hex_not_dirty (d ∷ s) h) refl

has_suffix-append : (l s t : List ℕ) → has_suffix l t ≡ true → has_suffix l (s ++ t) ≡ true
unfolding has_suffix
has_suffix-append l [] t h = h
has_suffix-append l (c ∷ s) t h = ground (arith, has_suffix-append l s t h)

has_suffix_self : has_suffix dirty dirty ≡ true
unfolding has_suffix strip
has_suffix_self = refl

-- Why a text ends with "+dirty", or does not.
abbrev pub Marks : Bool → List ℕ → Type 0
Marks true s = has_suffix dirty s ≡ true
Marks false s = ends_hex s ≡ true

pub Marks-append : (b : Bool) (s t : List ℕ) → Marks b t → Marks b (s ++ t)
Marks-append true s t h = has_suffix-append dirty s t h
Marks-append false s t h = ends_hex-append s t h

pub Marks-has_suffix : (b : Bool) (s : List ℕ) → Marks b s → has_suffix dirty s ≡ b
Marks-has_suffix true s h = h
Marks-has_suffix false s h = hex_not_dirty s h

append_nothing : (s : List ℕ) → (s ++ []) ≡ s
append_nothing [] = refl
append_nothing (c ∷ s) = ap (λ t. c ∷ t) (append_nothing s)

-- A hash, with the mark or without it.
pub Marks-hash :
    (b : Bool) (s : List ℕ)
    → s ≢ []
    → All (λ c. is_hex c ≡ true) s
    → Marks b (s ++ (if b then dirty else []))
Marks-hash true s n h = has_suffix-append dirty s dirty has_suffix_self
Marks-hash false s n h = rw (append_nothing s) (All-ends_hex s n h)
