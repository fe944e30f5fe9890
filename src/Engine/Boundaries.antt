-- ===== src/Engine/Boundaries.antt =====
-- The registry of the boundary events that catch errors (src/process/error_boundary_registry.go).
use atom_engine.Base.{
  String, Bool, Option, none, some, List, [], ◌∷◌, ◌++◌, Dict, lookup, insert, remove, str_eq,
  if◌then◌else◌,
}

pub record ErrorBoundary : Type 0 where
  pub token_id : String
  pub element_id : String
  pub attached_to_ref : String
  pub error_ref : String
  pub error_code : String
  pub error_name : String
  pub cancel_activity : Bool
  pub outgoing_flows : List String

abbrev pub or_no_boundaries : Option (List ErrorBoundary) → List ErrorBoundary
or_no_boundaries none = []
or_no_boundaries (some subscriptions) = subscriptions

unfoldable pub register_error_boundary :
    ErrorBoundary → Dict (List ErrorBoundary) → Dict (List ErrorBoundary)
register_error_boundary b d = insert b.token_id (or_no_boundaries (lookup b.token_id d) ++ b ∷ []) d

-- A token without an entry has no boundaries.
unfoldable pub get_error_boundaries_for_token :
    String → Dict (List ErrorBoundary) → List ErrorBoundary
get_error_boundaries_for_token token_id d = or_no_boundaries (lookup token_id d)

unfoldable pub first_of_code : String → List ErrorBoundary → Option ErrorBoundary
first_of_code error_code [] = none
first_of_code error_code (b ∷ rest) =
    if str_eq b.error_code error_code then some b else first_of_code error_code rest

unfoldable pub find_matching_error_boundary :
    String → String → Dict (List ErrorBoundary) → Option ErrorBoundary
unfolding get_error_boundaries_for_token first_of_code
find_matching_error_boundary token_id error_code d =
    first_of_code error_code (get_error_boundaries_for_token token_id d)

unfoldable pub remove_error_boundaries_for_token :
    String → Dict (List ErrorBoundary) → Dict (List ErrorBoundary)
remove_error_boundaries_for_token token_id d = remove token_id d
