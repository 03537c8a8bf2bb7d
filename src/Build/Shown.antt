-- ===== src/Build/Shown.antt =====
-- How pkg/build/build.go reads and shows a pseudo-version.
use cluster_api_provider_tin.Prelude.{
  ℕ, ◌≡◌, refl, sym, ap, ◌∙◌, ◌≢◌, Bool, Option, none, some, List, [], ◌∷◌, ◌++◌, arith, codes,
}
use cluster_api_provider_tin.Build.{
  PseudoVersion, FormType, no_base_form, pre_release_form, release_form, literal, is_digit, stamp,
  pattern_of, strip, take_exactly, find_submatch, first, version_of, or_next, parse_form, parse,
  to_string, version,
}
use cluster_api_provider_tin.Build.Matching.{size, match_literal, literal_differs}
use cluster_api_provider_tin.Build.Suffix.{Marks, Marks-append, Marks-has_suffix, Marks-hash}
use cluster_api_provider_tin.Build.Written.{
  Fields, IsWritten, stamp_text, numbers, text, base_text, short, stamp_match, major_match,
  numbers_match, no_base_fails,
}

module _ (f : Fields) (b : Bool) (w : IsWritten f) where
  hash_written : f.hash ≢ []
  hash_written p = ground (arith, sym w.hash_size ∙ ap size p)

  stamp-Marks : Marks b (stamp_text f b)
  stamp-Marks = Marks-append b f.date _ (
      Marks-append b f.time _
        (Marks-append b (codes "-") _ (Marks-hash b f.hash hash_written w.hash_hex)))

  numbers-Marks : (s : List ℕ) → Marks b s → Marks b (numbers f s)
  numbers-Marks s h = Marks-append b (codes "v") _ (
      Marks-append b f.major _ (
        Marks-append b (codes ".") _
          (Marks-append b f.minor _ (Marks-append b (codes ".") _ (Marks-append b f.patch s h)))))

  text-Marks : (form : FormType) → Marks b (text form f b)
  text-Marks no_base_form =
      Marks-append b (codes "v") _
        (Marks-append b f.major _ (Marks-append b (codes ".0.0-") _ stamp-Marks))
  text-Marks pre_release_form =
      numbers-Marks _ (Marks-append b (codes "-pre.0.") (stamp_text f b) stamp-Marks)
  text-Marks release_form =
      numbers-Marks _ (Marks-append b (codes "-0.") (stamp_text f b) stamp-Marks)

  abbrev base_groups : List (List ℕ)
  base_groups = f.major ∷ f.date ∷ f.time ∷ f.hash ∷ []

  abbrev all_groups : List (List ℕ)
  all_groups = f.major ∷ f.minor ∷ f.patch ∷ f.date ∷ f.time ∷ f.hash ∷ []

  no_base_groups :
      find_submatch (pattern_of no_base_form) (text no_base_form f b) ≡ some base_groups
  no_base_groups =
      rw
        (
          major_match f b w (codes "0.0-" ++ stamp_text f b) (literal (codes ".0.0-") ∷ stamp),
          match_literal (codes ".0.0-") (stamp_text f b) stamp,
          stamp_match f b w,
        )
        refl

  pre_release_groups :
      find_submatch (pattern_of pre_release_form) (text pre_release_form f b) ≡ some all_groups
  pre_release_groups =
      rw
        (
          numbers_match f b w (codes "pre.0." ++ stamp_text f b)
              (literal (codes "-pre.0.") ∷ stamp),
          match_literal (codes "-pre.0.") (stamp_text f b) stamp,
          stamp_match f b w,
        )
        refl

  release_groups : find_submatch (pattern_of release_form) (text release_form f b) ≡ some all_groups
  release_groups =
      rw
        (
          numbers_match f b w (codes "0." ++ stamp_text f b) (literal (codes "-0.") ∷ stamp),
          match_literal (codes "-0.") (stamp_text f b) stamp,
          stamp_match f b w,
        )
        refl

  pre_release_fails : find_submatch (pattern_of pre_release_form) (text release_form f b) ≡ none
  unfolding strip
  pre_release_fails =
      rw
        (
          numbers_match f b w (codes "0." ++ stamp_text f b) (literal (codes "-pre.0.") ∷ stamp),
          literal_differs (codes "-pre.0.") (codes "-0." ++ stamp_text f b) stamp refl,
        )
        refl

  pre_no_date : take_exactly is_digit 8 (codes "pre.0." ++ stamp_text f b) ≡ none
  unfolding take_exactly is_digit
  pre_no_date = refl

  release_no_date : take_exactly is_digit 8 (codes "0." ++ stamp_text f b) ≡ none
  unfolding take_exactly is_digit
  release_no_date = refl

  read_as :
      (form : FormType)
      → (groups : List (List ℕ))
      → (version_of form (text form f b) groups).base_version ≡ base_text form f
      → (version_of form (text form f b) groups).commit_hash ≡ first 8 f.hash
      → version_of form (text form f b) groups ≡ short form f b
  read_as form groups base hash =
      rw (base, hash, Marks-has_suffix b (text form f b) (text-Marks form)) refl

  form_matches :
      (form : FormType) (next : Option PseudoVersion) (groups : List (List ℕ))
      → find_submatch (pattern_of form) (text form f b) ≡ some groups
      → version_of form (text form f b) groups ≡ short form f b
      → parse_form form (text form f b) next ≡ some (short form f b)
  unfolding parse_form
  form_matches form next groups h read =
      ap (or_next form (text form f b) next) h ∙ ap (λ v. some v) read

  form_fails :
      (form : FormType) (t : List ℕ) (next : Option PseudoVersion)
      → find_submatch (pattern_of form) t ≡ none
      → parse_form form t next ≡ next
  unfolding parse_form
  form_fails form t next h = ap (or_next form t next) h

  parsed : (form : FormType) → parse (text form f b) ≡ some (short form f b)
  unfolding parse
  parsed no_base_form =
      form_matches no_base_form _ _ no_base_groups (read_as no_base_form base_groups refl refl)
  parsed pre_release_form =
      form_fails no_base_form _ _
        (no_base_fails f b w (codes "pre.0." ++ stamp_text f b) pre_no_date)
      ∙ form_matches pre_release_form _ _ pre_release_groups
          (read_as pre_release_form all_groups refl refl)
  parsed release_form =
      form_fails no_base_form _ _
        (no_base_fails f b w (codes "0." ++ stamp_text f b) release_no_date)
      ∙ form_fails pre_release_form _ _ pre_release_fails
      ∙ form_matches release_form _ _ release_groups (read_as release_form all_groups refl refl)

-- A pseudo-version of any of the three forms, with or without the mark of uncommitted changes, is
-- read as its base version, the first eight characters of its hash and the mark, and is shown so.
pub parse-text :
    (form : FormType) (f : Fields) (b : Bool)
    → IsWritten f
    → (parse (text form f b) ≡ some (short form f b))
      × (version (text form f b) ≡ to_string (short form f b))
unfolding version
parse-text form f b w = (parsed f b w form, rw (parsed f b w form) refl)
