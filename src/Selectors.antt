-- ===== src/Selectors.antt =====
-- `_fact_property_selectors` of application/knowledge_service.py: the selectors under which the
-- queries for a property may have been recorded. A change of a fact invalidates what rests on them.
mod Dotted
mod Exact
mod Tests
use andromeda_knowledge_core.Prelude.{String, List, [], ◌∷◌, map}
use andromeda_knowledge_core.Text.{split, join, ◌+++◌}

-- `parts[:index]` for each index of `range(1, len(parts))`
unfoldable pub proper_prefixes : List String → List (List String)
proper_prefixes [] = []
proper_prefixes (part ∷ []) = []
proper_prefixes (part ∷ next ∷ parts) =
    (part ∷ []) ∷ map (λ prefix. part ∷ prefix) (proper_prefixes (next ∷ parts))

-- `_fact_property_selectors(property_code)`, a set
unfoldable pub fact_property_selectors : String → List String
fact_property_selectors property_code =
    property_code ∷ map (λ prefix. join prefix +++ ".*") (proper_prefixes (split property_code))
