-- ===== src/Pattern.antt =====
-- src/pattern.c: wildcard patterns and paths. A string is the list of its characters, without the
-- null terminator; a pointer into a string is what is left of it. `totlower` and the default case
-- sensitivity are parameters.
pub mod Component
mod Tests
use wimlib.Common.{
  ℕ, zero, suc, Bool, true, false, ◌&&◌, ◌||◌, List, [], ◌∷◌, length, ◌==◌, if◌then◌else◌, get_or,
  drop, Option, none, some,
}

abbrev pub wim_path_separator : ℕ
wim_path_separator = b'/'

-- The flags MATCH_RECURSIVELY and MATCH_ANCESTORS.
pub record MatchFlags : Type 0 where
  pub recursively : Bool
  pub ancestors : Bool

-- `while (pattern != pattern_end && *pattern == T('*')) pattern++; return pattern == pattern_end;`
pub only_stars : List ℕ → Bool
only_stars [] = true
only_stars (q ∷ p) = let rest = only_stars p in if q == b'*' then rest else false

-- Advance past zero or more path separators.
pub advance_to_next_component : List ℕ → List ℕ
advance_to_next_component [] = []
advance_to_next_component (c ∷ s) =
    let rest = advance_to_next_component s in if c == wim_path_separator then rest else c ∷ s

-- What stands before the next separator, and what is left there.
pub up_to_separator : List ℕ → List ℕ × List ℕ
up_to_separator [] = ([], [])
up_to_separator (c ∷ s) =
    let (front, rest) = up_to_separator s in
    if c == wim_path_separator then ([], c ∷ s) else (c ∷ front, rest)

-- A nonempty path component, and what is left behind it: the first character is taken unseen.
pub advance_through_component : List ℕ → List ℕ × List ℕ
advance_through_component [] = ([], [])
advance_through_component (c ∷ s) = let (front, rest) = up_to_separator s in (c ∷ front, rest)

module _ (totlower : ℕ → ℕ) (default_ignore_case : Bool) where
  -- Two characters that the loop lets pass.
  abbrev pub char_matches : ℕ → ℕ → Bool
  char_matches c q = c == q || (q == b'?' || (default_ignore_case && totlower c == totlower q))

  pub string_matches_pattern : List ℕ → List ℕ → Bool
  string_matches_pattern [] pattern_ = only_stars pattern_
  string_matches_pattern (c ∷ s) [] = false
  string_matches_pattern (c ∷ s) (q ∷ p) =
      let empty_star = string_matches_pattern (c ∷ s) p in
      let longer_star = string_matches_pattern s (q ∷ p) in
      let rest = string_matches_pattern s p in
      if q == b'*'
      then (if empty_star then true else longer_star)
      else if char_matches c q
      then rest
      else false

  -- The loop over the components; each round takes a character of the pattern at least.
  pub match_components_loop : ℕ → List ℕ → List ℕ → MatchFlags → Bool
  match_components_loop zero path pattern_ flags = false
  match_components_loop (suc fuel) path pattern_ flags =
      let path' = advance_to_next_component path in
      let pattern' = advance_to_next_component pattern_ in
      let (path_component, path_rest) = advance_through_component path' in
      let (pattern_component, pattern_rest) = advance_through_component pattern' in
      let rest = match_components_loop fuel path_rest pattern_rest flags in
      elim pattern' [
        | [] ↦ elim path' [ [] ↦ true | _ ∷ _ ↦ flags.recursively ]
        | _ ∷ _ ↦ elim path' [
          | [] ↦ flags.ancestors
          | _ ∷ _ ↦ if string_matches_pattern path_component pattern_component then rest else false
        ]
      ]

-- The two loops of `path_basename_with_len`, going back from an index: `none` where the first
-- reaches the start.
pub skip_separators_back : List ℕ → ℕ → Option ℕ
skip_separators_back path zero = none
skip_separators_back path (suc p) =
    let back = skip_separators_back path p in
    if get_or path p 0 == wim_path_separator then back else some p

pub back_to_separator : List ℕ → ℕ → ℕ
back_to_separator path zero = 0
back_to_separator path (suc p) =
    let back = back_to_separator path p in
    if get_or path p 0 == wim_path_separator then suc p else back

pub path_basename : List ℕ → List ℕ
path_basename path = elim (skip_separators_back path (length path)) [
  | none ↦ drop (length path) path
  | some p ↦ drop (back_to_separator path p) path
]

abbrev pub is_absolute : List ℕ → Bool
is_absolute [] = false
is_absolute (c ∷ p) = c == wim_path_separator

pub match_path : (ℕ → ℕ) → Bool → List ℕ → List ℕ → MatchFlags → Bool
match_path totlower default_ignore_case path pattern_ flags =
    match_components_loop totlower default_ignore_case (suc (length pattern_))
      (if is_absolute pattern_ then path else path_basename path) pattern_ flags
