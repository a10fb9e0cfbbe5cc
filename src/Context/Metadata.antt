-- ===== src/Context/Metadata.antt =====
-- api/context/store/contextmetadata.go: a context's metadata and its JSON form.
--
-- A JSON object is a map of values; a value is a text, or something else, of type `V`. The
-- encoding of an object as bytes belongs to encoding/json.
pub mod Decoding
pub mod RoundTrip
mod Tests
use compose_cli.Prelude.{String, Option, none, some, [], ◌∷◌, ◌==◌, if◌then◌else◌}
use compose_cli.Prelude.GoMap.{GoMap, insert}

pub data Value (V : Type 0) : Type 0 where
  text : String → Value V
  other : V → Value V

-- A nil map of additional fields reads as an empty one.
pub record ContextMetadata (V : Type 0) : Type 0 where
  pub type : String
  pub description : String
  pub stack_orchestrator : String
  pub additional_fields : GoMap (Value V)

pub record DockerContext (V E : Type 0) : Type 0 where
  pub name : String
  pub metadata : ContextMetadata V
  pub endpoints : GoMap E

abbrev pub default_context_type : String
default_context_type = "moby"

unfoldable pub context_type : {V E : Type 0} → DockerContext V E → String
context_type m = if m.metadata.type == "" then default_context_type else m.metadata.type

module _ {V : Type 0} where
  -- s[key] = value, if the value is not empty
  unfoldable pub put_text : String → String → GoMap (Value V) → GoMap (Value V)
  put_text key value s = if value == "" then s else insert key (text value) s

  unfoldable pub put_all : GoMap (Value V) → GoMap (Value V) → GoMap (Value V)
  put_all [] s = s
  put_all ((k, v) ∷ fields) s = put_all fields (insert k v s)

  -- The map that `MarshalJSON` encodes.
  unfoldable pub to_object : ContextMetadata V → GoMap (Value V)
  unfolding put_text put_all
  to_object dc = put_all dc.additional_fields (
      put_text "Type" dc.type (
        put_text "StackOrchestrator" dc.stack_orchestrator
          (put_text "Description" dc.description [])))

  -- One round of the loop of `UnmarshalJSON`; `none` is the panic of `v.(string)`.
  unfoldable pub set_field : ContextMetadata V → String → Value V → Option (ContextMetadata V)
  set_field dc k (text t) =
      if k == "Description"
      then some (record dc { description = t })
      else if k == "StackOrchestrator"
      then some (record dc { stack_orchestrator = t })
      else if k == "Type"
      then some (record dc { type = t })
      else some (record dc { additional_fields = insert k (text t) dc.additional_fields })
  set_field dc k (other v) =
      if k == "Description"
      then none
      else if k == "StackOrchestrator"
      then none
      else if k == "Type"
      then none
      else some (record dc { additional_fields = insert k (other v) dc.additional_fields })

  unfoldable pub of_object : ContextMetadata V → GoMap (Value V) → Option (ContextMetadata V)
  unfolding set_field
  of_object dc [] = some dc
  of_object dc ((k, v) ∷ fields) = elim (set_field dc k v) [
    | none ↦ none
    | some dc' ↦ of_object dc' fields
  ]

  abbrev pub empty_metadata : ContextMetadata V
  empty_metadata = record {
    type = "";
    description = "";
    stack_orchestrator = "";
    additional_fields = [];
  }
