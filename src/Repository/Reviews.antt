-- ===== src/Repository/Reviews.antt =====
-- The queries and updates of the reviews in infrastructure/db/repositories.py.
use andromeda_knowledge_core.Prelude.{String, Bool, Option, List, ◌∷◌, ◌&&◌, keep, str_eq}
use andromeda_knowledge_core.Prelude.Tables.{find}
use andromeda_knowledge_core.Repository.{Review, Core}

abbrev pub is_open : Review → Bool
is_open review = str_eq review.status "NEEDS_REVIEW"

-- `find_open_review(entity_type, entity_id, reason)`
unfoldable pub find_open_review : Core → String → String → String → Option Review
find_open_review core entity_type entity_id reason =
    find
      (λ review.
        str_eq review.entity_type entity_type
        && str_eq review.entity_id entity_id
        && str_eq review.reason reason
        && is_open review)
      core.reviews

-- `list_reviews(status)` of the open ones
unfoldable pub open_reviews : Core → List Review
open_reviews core = keep is_open core.reviews

-- `create_review(data)`
abbrev pub create_review : Review → Core → Core
create_review review core = record core { reviews = review ∷ core.reviews }
