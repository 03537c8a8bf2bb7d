-- ===== src/Examples/Builds.antt =====
-- The theorem on the version of the build, and the versions that pkg/build/build_test.go shows.
use cluster_api_provider_tin.Prelude.{
  ℕ, Bool, ◌&&◌, All, ◌≡◌, refl, true, some, List, [], ◌∷◌, arith, codes,
}
use cluster_api_provider_tin.Build.{
  pre_release_form, parse_form, parse, to_string, version, find_submatch, has_suffix, is_digit,
  is_hex,
}
use cluster_api_provider_tin.Build.Written.{Fields, IsWritten, text, short}
use cluster_api_provider_tin.Build.Shown.{parse-text}

abbrev fields : Fields
fields = record {
  major = codes "1";
  minor = codes "2";
  patch = codes "3";
  date = codes "20230405";
  time = codes "123456";
  hash = codes "abcdef123456";
}

abbrev all : (ℕ → Bool) → List ℕ → Bool
all p [] = true
all p (c ∷ s) = p c && all p s

all-All : (p : ℕ → Bool) (s : List ℕ) → all p s ≡ true → All (λ c. p c ≡ true) s
all-All p [] h = tt
all-All p (c ∷ s) h = (ground (arith, h), all-All p s (ground (arith, h)))

written : IsWritten fields
unfolding is_hex is_digit
written = record {
  major_digits = (λ p. ground (arith, p), all-All is_digit fields.major refl);
  minor_digits = (λ p. ground (arith, p), all-All is_digit fields.minor refl);
  patch_digits = (λ p. ground (arith, p), all-All is_digit fields.patch refl);
  date_digits = (refl, all-All is_digit fields.date refl);
  time_digits = (refl, all-All is_digit fields.time refl);
  hash_size = refl;
  hash_hex = all-All is_hex fields.hash refl;
}

valid_version : version (codes "v1.2.3-0.20230405123456-abcdef123456") ≡ codes "v1.2.3-abcdef12"
unfolding version parse parse_form find_submatch has_suffix is_hex is_digit
valid_version = refl

invalid_version : version (codes "invalid-version") ≡ codes "invalid-version"
unfolding version parse parse_form find_submatch has_suffix is_hex is_digit
invalid_version = refl

parse-text_example :
    (parse (text pre_release_form fields true) ≡ some (short pre_release_form fields true))
    × (version (text pre_release_form fields true) ≡ to_string (short pre_release_form fields true))
parse-text_example = parse-text pre_release_form fields true written
