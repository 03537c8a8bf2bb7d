-- ===== src/Build/Written.antt =====
-- Pseudo-versions as the Go command writes them, and what the patterns of pkg/build/build.go make
-- of their parts.
use cluster_api_provider_tin.Prelude.{
  ℕ, ◌≡◌, refl, ◌∙◌, ◌≢◌, ◌⊎◌, inl, inr, Bool, true, false, none, some, List, [], ◌∷◌, ◌++◌, arith,
  All, codes, if◌then◌else◌,
}
use cluster_api_provider_tin.Build.{
  PseudoVersion, FormType, no_base_form, pre_release_form, release_form, Piece, literal, digits,
  is_digit, is_hex, dirty, stamp, pattern_of, strip, take_exactly, with_group, find_submatch, first,
}
use cluster_api_provider_tin.Build.Matching.{
  Digits, size, match_literal, match_digits, match_exactly, match_end,
}

pub record Fields : Type 0 where
  pub major : List ℕ
  pub minor : List ℕ
  pub patch : List ℕ
  pub date : List ℕ
  pub time : List ℕ
  pub hash : List ℕ

-- The numbers of the base version are numerals, the date has eight digits, the time six, and the
-- hash twelve characters.
pub record IsWritten (f : Fields) : Type 0 where
  pub major_digits : (f.major ≢ []) × Digits f.major
  pub minor_digits : (f.minor ≢ []) × Digits f.minor
  pub patch_digits : (f.patch ≢ []) × Digits f.patch
  pub date_digits : (size f.date ≡ 8) × Digits f.date
  pub time_digits : (size f.time ≡ 6) × Digits f.time
  pub hash_size : size f.hash ≡ 12
  pub hash_hex : All (λ c. is_hex c ≡ true) f.hash

abbrev pub suffix : Bool → List ℕ
suffix b = if b then dirty else []

abbrev pub stamp_text : Fields → Bool → List ℕ
stamp_text f b = f.date ++ (f.time ++ (codes "-" ++ (f.hash ++ suffix b)))

abbrev pub numbers : Fields → List ℕ → List ℕ
numbers f rest =
    codes "v" ++ (f.major ++ (codes "." ++ (f.minor ++ (codes "." ++ (f.patch ++ rest)))))

-- The three forms of https://go.dev/ref/mod#pseudo-versions, for a pre-release named "pre".
abbrev pub text : FormType → Fields → Bool → List ℕ
text no_base_form f b = codes "v" ++ (f.major ++ (codes ".0.0-" ++ stamp_text f b))
text pre_release_form f b = numbers f (codes "-pre.0." ++ stamp_text f b)
text release_form f b = numbers f (codes "-0." ++ stamp_text f b)

abbrev pub base_text : FormType → Fields → List ℕ
base_text no_base_form f = codes "v" ++ (f.major ++ codes ".0.0")
base_text pre_release_form f = numbers f (codes "-pre")
base_text release_form f =
    codes "v" ++ (f.major ++ (codes "." ++ (f.minor ++ (codes "." ++ f.patch))))

abbrev pub short : FormType → Fields → Bool → PseudoVersion
short form f b = record {
  base_version = base_text form f;
  commit_hash = first 8 f.hash;
  is_dirty = b;
}

digit_point : is_digit b'.' ≡ false
unfolding is_digit
digit_point = refl

digit_dash : is_digit b'-' ≡ false
unfolding is_digit
digit_dash = refl

module _ (f : Fields) (b : Bool) (w : IsWritten f) where
  pub stamp_match : find_submatch stamp (stamp_text f b) ≡ some (f.date ∷ f.time ∷ f.hash ∷ [])
  stamp_match =
      rw
        (
          match_exactly is_digit f.date (f.time ++ (codes "-" ++ (f.hash ++ suffix b))) 8 _
              w.date_digits.0 w.date_digits.1,
          match_exactly is_digit f.time (codes "-" ++ (f.hash ++ suffix b)) 6 _ w.time_digits.0
              w.time_digits.1,
          match_literal (codes "-") (f.hash ++ suffix b) _,
          match_exactly is_hex f.hash (suffix b) 12 [] w.hash_size w.hash_hex,
          match_end b,
        )
        refl

  -- The first numeral of a text, before a point.
  pub major_match :
      (s : List ℕ) (ps : List Piece)
      → find_submatch
          (literal (codes "v") ∷ digits ∷ ps)
          (codes "v" ++ (f.major ++ (codes "." ++ s)))
        ≡ with_group f.major (find_submatch ps (codes "." ++ s))
  major_match s ps =
      match_literal (codes "v") (f.major ++ (codes "." ++ s)) (digits ∷ ps)
      ∙ match_digits f.major s b'.' ps w.major_digits.0 w.major_digits.1 digit_point

  pub numbers_match :
      (s : List ℕ) (ps : List Piece)
      → find_submatch
          (literal (codes "v")
            ∷ digits
            ∷ literal (codes ".")
            ∷ digits
            ∷ literal (codes ".")
            ∷ digits
            ∷ ps)
          (numbers f (codes "-" ++ s))
        ≡ with_group f.major
            (with_group f.minor (with_group f.patch (find_submatch ps (codes "-" ++ s))))
  numbers_match s ps =
      rw
        (
          major_match (f.minor ++ (codes "." ++ (f.patch ++ (codes "-" ++ s)))) _,
          match_literal (codes ".") (f.minor ++ (codes "." ++ (f.patch ++ (codes "-" ++ s)))) _,
          match_digits f.minor (f.patch ++ (codes "-" ++ s)) b'.' _ w.minor_digits.0
              w.minor_digits.1 digit_point,
          match_literal (codes ".") (f.patch ++ (codes "-" ++ s)) _,
          match_digits f.patch s b'-' ps w.patch_digits.0 w.patch_digits.1 digit_dash,
        )
        refl

  -- Where the version is not vX.0.0, the first pattern fails at the base version; else it fails at
  -- what stands in place of the date.
  zeros_or_none :
      (mi pa s : List ℕ)
      → mi ≢ []
      → Digits mi
      → pa ≢ []
      → Digits pa
      → (strip (codes ".0.0-") (codes "." ++ (mi ++ (codes "." ++ (pa ++ (codes "-" ++ s)))))
          ≡ none)
        ⊎ (strip (codes ".0.0-") (codes "." ++ (mi ++ (codes "." ++ (pa ++ (codes "-" ++ s)))))
            ≡ some s)
  unfolding strip is_digit
  zeros_or_none [] pa s n d n' d' = absurd (n refl)
  zeros_or_none (x ∷ mi) [] s n d n' d' = absurd (n' refl)
  zeros_or_none (x ∷ []) (y ∷ []) s n d n' d' = ground arith
  zeros_or_none (x ∷ []) (y ∷ z ∷ pa) s n d n' (_, (dz, _)) = ground (arith, dz)
  zeros_or_none (x ∷ x' ∷ mi) (y ∷ pa) s n (_, (dx, _)) n' d' = ground (arith, dx)

  pub no_base_fails :
      (s : List ℕ)
      → take_exactly is_digit 8 s ≡ none
      → find_submatch (pattern_of no_base_form) (numbers f (codes "-" ++ s)) ≡ none
  unfolding find_submatch
  no_base_fails s h =
      major_match (f.minor ++ (codes "." ++ (f.patch ++ (codes "-" ++ s))))
        (literal (codes ".0.0-") ∷ stamp)
      ∙ elim (zeros_or_none f.minor f.patch s w.minor_digits.0 w.minor_digits.1 w.patch_digits.0
          w.patch_digits.1) [ inl differs ↦ rw differs refl | inr same ↦ rw (same, h) refl ]
