-- ===== src/Pattern/Tests.antt =====
-- `string_matches_pattern` and `match_path` of src/pattern.c at some names.
use wimlib.Common.{◌≡◌, ◌↔◌, refl, [], ◌∷◌, true, false}
use wimlib.Pattern.{
  string_matches_pattern, match_path, path_basename, match_components_loop, only_stars,
  advance_to_next_component, up_to_separator, advance_through_component, skip_separators_back,
  back_to_separator,
}
use wimlib.Pattern.Component.{Fits, string_matches_pattern-Fits}

string_matches_pattern-Fits_example :
    (string_matches_pattern (λ c. c) false (b'a' ∷ b'b' ∷ b'c' ∷ []) (b'*' ∷ b'?' ∷ b'c' ∷ [])
      ≡ true)
    ↔ Fits (λ c. c) false (b'a' ∷ b'b' ∷ b'c' ∷ []) (b'*' ∷ b'?' ∷ b'c' ∷ [])
string_matches_pattern-Fits_example =
    string_matches_pattern-Fits (λ c. c) false (b'a' ∷ b'b' ∷ b'c' ∷ []) (b'*' ∷ b'?' ∷ b'c' ∷ [])

-- "/d/abc" and the pattern "a*c"
matched_by_name :
    match_path
      (λ c. c)
      false
      (b'/' ∷ b'd' ∷ b'/' ∷ b'a' ∷ b'b' ∷ b'c' ∷ [])
      (b'a' ∷ b'*' ∷ b'c' ∷ [])
      (record { recursively = false; ancestors = false })
    ≡ true
unfolding match_path path_basename match_components_loop string_matches_pattern only_stars
    advance_to_next_component up_to_separator advance_through_component skip_separators_back
    back_to_separator
matched_by_name = refl
