-- ===== src/Build.antt =====
-- pkg/build/build.go: how a version of the build is shown. A text is the list of its bytes, which
-- are ASCII where a pattern matches.
pub mod Matching
pub mod Suffix
pub mod Written
pub mod Shown
use cluster_api_provider_tin.Prelude.{
  ℕ, zero, suc, String, Bool, true, false, ◌&&◌, ◌||◌, Option, none, some, List, [], ◌∷◌, ◌++◌,
  codes, leb, nat_eq, if◌then◌else◌,
}

pub record PseudoVersion : Type 0 where
  pub base_version : List ℕ
  pub commit_hash : List ℕ
  pub is_dirty : Bool

pub data FormType : Type 0 where
  no_base_form pre_release_form release_form : FormType

-- The parts of the patterns: a text, `(\d+)`, and `(c{n})` for a class `c` of characters.
pub data Piece : Type 0 where
  literal : List ℕ → Piece
  digits : Piece
  exactly : (ℕ → Bool) → ℕ → Piece

unfoldable pub is_digit : ℕ → Bool
is_digit c = leb b'0' c && leb c b'9'

unfoldable pub is_hex : ℕ → Bool
unfolding is_digit
is_hex c = is_digit c || (leb b'a' c && leb c b'f')

abbrev pub dirty : List ℕ
dirty = codes "+dirty"

-- The date, the time and the hash, with which each pattern ends.
abbrev pub stamp : List Piece
stamp = exactly is_digit 8 ∷ exactly is_digit 6 ∷ literal (codes "-") ∷ exactly is_hex 12 ∷ []

abbrev pub pattern_of : FormType → List Piece
pattern_of no_base_form = literal (codes "v") ∷ digits ∷ literal (codes ".0.0-") ∷ stamp
pattern_of pre_release_form =
    literal (codes "v")
    ∷ digits
    ∷ literal (codes ".")
    ∷ digits
    ∷ literal (codes ".")
    ∷ digits
    ∷ literal (codes "-pre.0.")
    ∷ stamp
pattern_of release_form =
    literal (codes "v")
    ∷ digits
    ∷ literal (codes ".")
    ∷ digits
    ∷ literal (codes ".")
    ∷ digits
    ∷ literal (codes "-0.")
    ∷ stamp

-- The rest of a text after another one.
unfoldable pub strip : List ℕ → List ℕ → Option (List ℕ)
strip [] s = some s
strip (x ∷ l) [] = none
strip (x ∷ l) (c ∷ s) = let rest = strip l s in if nat_eq x c then rest else none

-- The digits at the start of a text, and the rest. No digit may follow a `(\d+)` of the patterns,
-- so it matches all of them.
unfoldable pub leading : List ℕ → List ℕ × List ℕ
leading [] = ([], [])
leading (c ∷ s) = let rest = leading s in if is_digit c then (c ∷ rest.0, rest.1) else ([], c ∷ s)

abbrev pub with_first : ℕ → Option (List ℕ × List ℕ) → Option (List ℕ × List ℕ)
with_first c none = none
with_first c (some (d, s)) = some (c ∷ d, s)

unfoldable pub take_exactly : (ℕ → Bool) → ℕ → List ℕ → Option (List ℕ × List ℕ)
take_exactly p zero s = some ([], s)
take_exactly p (suc n) [] = none
take_exactly p (suc n) (c ∷ s) =
    let rest = take_exactly p n s in if p c then with_first c rest else none

abbrev pub is_nothing : Option (List ℕ) → Bool
is_nothing (some []) = true
is_nothing _ = false

-- `(?:\+dirty)?$`
abbrev pub at_end : List ℕ → Bool
at_end [] = true
at_end (c ∷ s) = is_nothing (strip dirty (c ∷ s))

abbrev pub with_group : List ℕ → Option (List (List ℕ)) → Option (List (List ℕ))
with_group d none = none
with_group d (some groups) = some (d ∷ groups)

abbrev pub or_none : {A B : Type 0} → (A → Option B) → Option A → Option B
or_none f none = none
or_none f (some a) = f a

abbrev pub some_digits : List ℕ → Option (List (List ℕ)) → Option (List (List ℕ))
some_digits [] groups = none
some_digits (c ∷ d) groups = with_group (c ∷ d) groups

-- FindStringSubmatch, less the match of the whole text.
unfoldable pub find_submatch : List Piece → List ℕ → Option (List (List ℕ))
unfolding strip leading take_exactly
find_submatch [] s = if at_end s then some [] else none
find_submatch (literal l ∷ ps) s = or_none (λ r. find_submatch ps r) (strip l s)
find_submatch (digits ∷ ps) s = some_digits (leading s).0 (find_submatch ps (leading s).1)
find_submatch (exactly p n ∷ ps) s =
    or_none (λ (x : List ℕ × List ℕ). with_group x.0 (find_submatch ps x.1)) (take_exactly p n s)

-- `strings.HasSuffix`
unfoldable pub has_suffix : List ℕ → List ℕ → Bool
unfolding strip
has_suffix suffix [] = is_nothing (strip suffix [])
has_suffix suffix (c ∷ s) = is_nothing (strip suffix (c ∷ s)) || has_suffix suffix s

-- A match of a pattern has as many groups as are read.
abbrev pub base_of : FormType → List (List ℕ) → List ℕ
base_of no_base_form (major ∷ _) = codes "v" ++ (major ++ codes ".0.0")
base_of pre_release_form (major ∷ minor ∷ patch ∷ _) =
    codes "v" ++ (major ++ (codes "." ++ (minor ++ (codes "." ++ (patch ++ codes "-pre")))))
base_of release_form (major ∷ minor ∷ patch ∷ _) =
    codes "v" ++ (major ++ (codes "." ++ (minor ++ (codes "." ++ patch))))
base_of _ _ = []

abbrev pub last_group : List (List ℕ) → List ℕ
last_group [] = []
last_group (g ∷ []) = g
last_group (g ∷ h ∷ gs) = last_group (h ∷ gs)

-- `s[:n]`, of a text that is long enough.
abbrev pub first : ℕ → List ℕ → List ℕ
first zero s = []
first (suc n) [] = []
first (suc n) (c ∷ s) = c ∷ first n s

abbrev pub version_of : FormType → List ℕ → List (List ℕ) → PseudoVersion
version_of form text groups = record {
  base_version = base_of form groups;
  commit_hash = first 8 (last_group groups);
  is_dirty = has_suffix dirty text;
}

-- One turn of the loop over the patterns; `next` is what the turns after it give.
abbrev pub or_next :
    FormType → List ℕ → Option PseudoVersion → Option (List (List ℕ)) → Option PseudoVersion
or_next form text next none = next
or_next form text next (some groups) = some (version_of form text groups)

unfoldable pub parse_form : FormType → List ℕ → Option PseudoVersion → Option PseudoVersion
parse_form form text next = or_next form text next (find_submatch (pattern_of form) text)

-- None stands for the error.
unfoldable pub parse : List ℕ → Option PseudoVersion
parse text =
    parse_form no_base_form text
      (parse_form pre_release_form text (parse_form release_form text none))

abbrev pub to_string : PseudoVersion → List ℕ
to_string pv =
    let base = pv.base_version ++ (codes "-" ++ pv.commit_hash) in
    if pv.is_dirty then base ++ dirty else base

abbrev or_raw : List ℕ → Option PseudoVersion → List ℕ
or_raw raw none = raw
or_raw raw (some pv) = to_string pv

unfoldable pub version : List ℕ → List ℕ
unfolding parse
version raw = or_raw raw (parse raw)

-- What debug.ReadBuildInfo answers: the version of the main module, if there is one.
unfoldable pub git_revision : Option (List ℕ) → List ℕ
unfolding version
git_revision none = codes "unknown"
git_revision (some raw) = version raw
