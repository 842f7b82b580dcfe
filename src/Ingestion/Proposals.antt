-- ===== src/Ingestion/Proposals.antt =====
-- `_proposal_to_dict` and `_proposal_from_dict` of application/ingestion_pipeline.py, by which a row
-- keeps the proposals of an extraction.
use andromeda_knowledge_core.Prelude.{String, ◌≡◌, refl, none, some, List, [], ◌∷◌, map}
use andromeda_knowledge_core.Json.{
  Value, null, bool, num, str, obj, arr, Fields, end, field, Items, nil, cons, get, of_list,
}
use andromeda_knowledge_core.Prelude.Int.{ℤ, pos}
use andromeda_knowledge_core.Json.Compare.{int_of_bool}
use andromeda_knowledge_core.Json.Update.{put}
use andromeda_knowledge_core.Ingestion.{
  Proposal, EvidenceRef, Ports, Outcome, returned, raised, Exception, ◌>>=◌,
}

unfoldable pub evidence_to_dict : EvidenceRef → Value
evidence_to_dict item = obj (
    field "source_id" (str item.source_id)
      (field "locator" (obj item.locator) (field "excerpt_hash" item.excerpt_hash end)))

-- `_proposal_to_dict(proposal)`
unfoldable pub proposal_to_dict : Proposal → Fields
proposal_to_dict proposal = field "proposal_type" (str proposal.proposal_type) (
    field "payload" (obj proposal.payload) (
      field "confidence" (num proposal.confidence) (
        field "evidence" (arr (of_list (map evidence_to_dict proposal.evidence)))
          (field "adapter" (str proposal.adapter) end))))

abbrev type_error : Exception
type_error = record { class_name = "TypeError"; text = "" }

abbrev value_error : Exception
value_error = record { class_name = "ValueError"; text = "" }

-- `d.get(k, default)`
abbrev pub get_or : String → Value → Fields → Value
get_or k default d = elim (get k d) [ none ↦ default | some v ↦ v ]

-- `str(v)`
unfoldable pub text_of : Ports → Value → String
text_of ports (str s) = s
text_of ports v = ports.render v

-- `float(v)`, of the numbers without a fraction; a fraction is not represented
unfoldable pub float_of : Ports → Value → Outcome ℤ
float_of ports (num n) = returned n
float_of ports (bool b) = returned (int_of_bool b)
float_of ports (str s) = elim (ports.parse_float s) [
  | none ↦ raised value_error
  | some n ↦ returned n
]
float_of ports v = raised type_error

-- `dict(v)` of a list of pairs, each a text and a value
unfoldable pub dict_of_pairs : Items → Fields → Outcome Fields
dict_of_pairs nil d = returned d
dict_of_pairs (cons (arr (cons (str k) (cons v nil))) items) d = dict_of_pairs items (put k v d)
dict_of_pairs items d = raised value_error

-- `dict(v)`
unfoldable pub dict_of : Value → Outcome Fields
dict_of (obj d) = returned d
dict_of (arr items) = dict_of_pairs items end
dict_of (str String.[]) = returned end
dict_of (str s) = raised value_error
dict_of v = raised type_error

unfoldable pub evidence_from_dict : Ports → Fields → Outcome EvidenceRef
evidence_from_dict ports item = do
  locator ← dict_of (get_or "locator" (obj end) item)
  returned (record {
    source_id = text_of ports (get_or "source_id" (str "") item);
    locator = locator;
    excerpt_hash = get_or "excerpt_hash" null item;
  })

-- The loop over `payload.get("evidence", [])`, which skips what is no mapping.
unfoldable pub evidence_of_items : Ports → Items → Outcome (List EvidenceRef)
evidence_of_items ports nil = returned []
evidence_of_items ports (cons (obj item) items) = do
  evidence ← evidence_from_dict ports item
  rest ← evidence_of_items ports items
  returned (evidence ∷ rest)
evidence_of_items ports (cons item items) = evidence_of_items ports items

-- A text and the keys of a dict hold no mapping.
unfoldable pub evidence_of : Ports → Value → Outcome (List EvidenceRef)
evidence_of ports (arr items) = evidence_of_items ports items
evidence_of ports (obj d) = returned []
evidence_of ports (str s) = returned []
evidence_of ports v = raised type_error

-- `_proposal_from_dict(payload)`
unfoldable pub proposal_from_dict : Ports → Fields → Outcome Proposal
proposal_from_dict ports payload = do
  evidence ← evidence_of ports (get_or "evidence" (arr nil) payload)
  content ← dict_of (get_or "payload" (obj end) payload)
  confidence ← float_of ports (get_or "confidence" (num (pos 0)) payload)
  returned (record {
    proposal_type = text_of ports (get_or "proposal_type" (str "OBSERVATION_CANDIDATE") payload);
    payload = content;
    confidence = confidence;
    evidence = evidence;
    adapter = text_of ports (get_or "adapter" (str "unknown") payload);
  })

-- `[_proposal_from_dict(item) for item in items]`
unfoldable pub proposals_from_dicts : Ports → List Fields → Outcome (List Proposal)
proposals_from_dicts ports [] = returned []
proposals_from_dicts ports (item ∷ items) = do
  proposal ← proposal_from_dict ports item
  rest ← proposals_from_dicts ports items
  returned (proposal ∷ rest)

evidence_from-evidence_to_dict :
    (ports : Ports) (items : List EvidenceRef)
    → evidence_of_items ports (of_list (map evidence_to_dict items)) ≡ returned items
unfolding evidence_of_items evidence_from_dict evidence_to_dict of_list get dict_of text_of
evidence_from-evidence_to_dict ports [] = refl
evidence_from-evidence_to_dict ports (item ∷ items) =
    rw (evidence_from-evidence_to_dict ports items) refl

proposal_from-proposal_to_dict :
    (ports : Ports) (proposal : Proposal)
    → proposal_from_dict ports (proposal_to_dict proposal) ≡ returned proposal
unfolding proposal_from_dict proposal_to_dict evidence_of get dict_of text_of float_of
proposal_from-proposal_to_dict ports proposal =
    rw (evidence_from-evidence_to_dict ports proposal.evidence) refl

-- The proposals that an extraction has stored are read back as they were, whatever `str` and `float`
-- do with other values.
pub proposals_from-proposal_to_dict :
    (ports : Ports) (proposals : List Proposal)
    → proposals_from_dicts ports (map proposal_to_dict proposals) ≡ returned proposals
unfolding proposals_from_dicts
proposals_from-proposal_to_dict ports [] = refl
proposals_from-proposal_to_dict ports (proposal ∷ proposals) =
    rw
      (
        proposal_from-proposal_to_dict ports proposal,
        proposals_from-proposal_to_dict ports proposals,
      )
      refl
