-- ===== src/Build/Matching.antt =====
-- What the parts of the patterns of pkg/build/build.go match.
use cluster_api_provider_tin.Prelude.{
  ℕ, suc, ◌≡◌, refl, sym, ◌≢◌, Bool, true, false, none, some, List, [], ◌∷◌, ◌++◌, arith, All,
  if◌then◌else◌,
}
use cluster_api_provider_tin.Build.{
  Piece, literal, digits, exactly, is_digit, dirty, strip, leading, take_exactly, with_group,
  find_submatch,
}

abbrev pub Digits : List ℕ → Type 0
Digits d = All (λ c. is_digit c ≡ true) d

abbrev pub size : List ℕ → ℕ
size [] = 0
size (c ∷ s) = suc (size s)

strip-append : (l s : List ℕ) → strip l (l ++ s) ≡ some s
unfolding strip
strip-append [] s = refl
strip-append (x ∷ l) s = ground (arith, strip-append l s)

leading-append :
    (d s : List ℕ) (x : ℕ) → Digits d → is_digit x ≡ false → leading (d ++ (x ∷ s)) ≡ (d, x ∷ s)
unfolding leading
leading-append [] s x h n = rw n refl
leading-append (c ∷ d) s x (y, h) n = rw (y, leading-append d s x h n) refl

take_exactly-append :
    (p : ℕ → Bool) (d s : List ℕ)
    → All (λ c. p c ≡ true) d
    → take_exactly p (size d) (d ++ s) ≡ some (d, s)
unfolding take_exactly
take_exactly-append p [] s h = refl
take_exactly-append p (c ∷ d) s (y, h) = rw (y, take_exactly-append p d s h) refl

pub match_literal :
    (l s : List ℕ) (ps : List Piece) → find_submatch (literal l ∷ ps) (l ++ s) ≡ find_submatch ps s
unfolding find_submatch
match_literal l s ps = rw (strip-append l s) refl

pub match_digits :
    (d s : List ℕ) (x : ℕ) (ps : List Piece)
    → d ≢ []
    → Digits d
    → is_digit x ≡ false
    → find_submatch (digits ∷ ps) (d ++ (x ∷ s)) ≡ with_group d (find_submatch ps (x ∷ s))
unfolding find_submatch
match_digits [] s x ps some' h n = absurd (some' refl)
match_digits (c ∷ d) s x ps some' h n = rw (leading-append (c ∷ d) s x h n) refl

pub match_exactly :
    (p : ℕ → Bool) (d s : List ℕ) (n : ℕ) (ps : List Piece)
    → size d ≡ n
    → All (λ c. p c ≡ true) d
    → find_submatch (exactly p n ∷ ps) (d ++ s) ≡ with_group d (find_submatch ps s)
unfolding find_submatch
match_exactly p d s n ps same h = rw (sym same, take_exactly-append p d s h) refl

pub match_end : (b : Bool) → find_submatch [] (if b then dirty else []) ≡ some []
unfolding find_submatch strip
match_end true = refl
match_end false = refl

pub literal_differs :
    (l s : List ℕ) (ps : List Piece) → strip l s ≡ none → find_submatch (literal l ∷ ps) s ≡ none
unfolding find_submatch
literal_differs l s ps h = rw h refl
