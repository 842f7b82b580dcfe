-- ===== src/Selectors/Tests.antt =====
-- The selectors of a concrete property.
use andromeda_knowledge_core.Prelude.{◌≡◌, refl, true, [], ◌∷◌, In, ◌↔◌}
use andromeda_knowledge_core.Text.{split, join, ◌+++◌}
use andromeda_knowledge_core.Dsl.Evaluate.References.{matches_text}
use andromeda_knowledge_core.Selectors.{proper_prefixes, fact_property_selectors}
use andromeda_knowledge_core.Selectors.Exact.{fact_property_selectors_lem}

three_selectors : fact_property_selectors "a.b.c" ≡ "a.b.c" ∷ "a.*" ∷ "a.b.*" ∷ []
unfolding fact_property_selectors proper_prefixes split join ◌+++◌
three_selectors = refl

fact_property_selectors_lem_example :
    In "a.*" (fact_property_selectors "a.b.c") ↔ (matches_text "a.b.c" "a.*" ≡ true)
fact_property_selectors_lem_example = fact_property_selectors_lem "a.b.c" "a.*"
