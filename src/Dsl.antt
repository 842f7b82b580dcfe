-- ===== src/Dsl.antt =====
-- domain/dsl: the node kinds and operators of the rule DSL. The validator is in Dsl/Validate.antt
-- and the evaluator in Dsl/Evaluate.antt; the proofs are in the modules below them.
pub mod Validate
pub mod Evaluate
pub mod Safety
mod Tests
use andromeda_knowledge_core.Prelude.{
  String, Bool, true, false, Option, none, some, List, [], ◌∷◌, str_eq, if◌then◌else◌, any,
}
use andromeda_knowledge_core.Errors.{Result, ok, err, fault, type_error}
use andromeda_knowledge_core.Json.{
  Value, null, bool, num, str, arr, obj, Fields, get, or_else, value_or_null, to_list, chars, keys,
}
use andromeda_knowledge_core.Prelude

-- The members of ALLOWED_KINDS.
pub data Kind : Type 0 where
  literal logical comparison exists not_exists membership aggregation quantifier : Kind
  fact facts relation relations context applicant collection : Kind

-- `kind in ALLOWED_KINDS`, with the kind that it is.
unfoldable pub kind_of : String → Option Kind
kind_of s =
    if str_eq s "literal"
    then some literal
    else if str_eq s "logical"
    then some logical
    else if str_eq s "comparison"
    then some comparison
    else if str_eq s "exists"
    then some exists
    else if str_eq s "not_exists"
    then some not_exists
    else if str_eq s "membership"
    then some membership
    else if str_eq s "aggregation"
    then some aggregation
    else if str_eq s "quantifier"
    then some quantifier
    else if str_eq s "fact"
    then some fact
    else if str_eq s "facts"
    then some facts
    else if str_eq s "relation"
    then some relation
    else if str_eq s "relations"
    then some relations
    else if str_eq s "context"
    then some context
    else if str_eq s "applicant"
    then some applicant
    else if str_eq s "collection"
    then some collection
    else none

-- `node.get("kind", node.get("op"))`
unfoldable pub node_kind : Fields → Value
node_kind fs = value_or_null (or_else (get "kind" fs) (get "op" fs))

-- `v in {…}` for a set of texts: what cannot be hashed raises `TypeError`.
unfoldable pub in_texts : List String → Value → Result Bool
in_texts ws (str s) = ok (any (λ w. str_eq s w) ws)
in_texts ws (arr xs) = err (fault type_error)
in_texts ws (obj fs) = err (fault type_error)
in_texts ws _ = ok false

-- `v == "…"`
unfoldable pub is_word : Value → String → Bool
is_word (str s) w = str_eq s w
is_word _ w = false

unfoldable pub logical_operators : List String
logical_operators = "and" ∷ "or" ∷ "not" ∷ []

unfoldable pub comparison_operators : List String
comparison_operators = "==" ∷ "!=" ∷ ">" ∷ ">=" ∷ "<" ∷ "<=" ∷ []

unfoldable pub membership_operators : List String
membership_operators = "in" ∷ "not_in" ∷ []

unfoldable pub aggregation_operators : List String
aggregation_operators = "count" ∷ "sum" ∷ "min" ∷ "max" ∷ []

unfoldable pub quantifier_operators : List String
quantifier_operators = "any" ∷ "all" ∷ "none" ∷ "at_least" ∷ []

-- The values of a `for` loop over `v`.
unfoldable pub iterate : Value → Result (List Value)
iterate (arr xs) = ok (to_list xs)
iterate (str s) = ok (chars s)
iterate (obj fs) = ok (Prelude.map str (keys fs))
iterate _ = err (fault type_error)
