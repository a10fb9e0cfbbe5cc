-- ===== src/Context/Metadata/Tests.antt =====
-- A context with an additional field, encoded and decoded.
use mathlib.Core.Path.{subst}
use compose_cli.Prelude.{
  String, ◌≡◌, refl, sym, not_both, ==-false, Bool, true, inl, inr, String-cases, none, some, [],
  ◌∷◌,
}
use compose_cli.Prelude.GoMap.{GoMap, lookup, insert}
use compose_cli.Context.Metadata.{
  Value, text, other, ContextMetadata, to_object, of_object, empty_metadata,
}
use compose_cli.Context.Metadata.Decoding.{is_reserved}
use compose_cli.Context.Metadata.RoundTrip.{IsSame, of_object-to_object}

abbrev aci : ContextMetadata Bool
aci = record {
  type = "aci";
  description = "";
  stack_orchestrator = "swarm";
  additional_fields = ("Cloud", other true) ∷ [];
}

abbrev object : GoMap (Value Bool)
object = ("StackOrchestrator", text "swarm") ∷ ("Type", text "aci") ∷ ("Cloud", other true) ∷ []

to_object-aci : to_object aci ≡ object
unfolding to_object lookup insert
to_object-aci = refl

panics_on_number : of_object empty_metadata (("Type", other true) ∷ []) ≡ none
unfolding of_object
panics_on_number = refl

reserved_free : (j : String) → is_reserved j ≡ true → lookup j aci.additional_fields ≡ none
unfolding lookup
reserved_free j kept = elim (String-cases "Cloud" j) [
  | inl same ↦ absurd (not_both (subst (λ x. is_reserved x ≡ true) (sym same) kept) refl)
  | inr apart ↦ rw (==-false "Cloud" j apart) refl
]

of_object-to_object_example :
    (dc' : ContextMetadata Bool) × (of_object empty_metadata object ≡ some dc') × IsSame aci dc'
unfolding lookup to_object insert
of_object-to_object_example =
    of_object-to_object aci object (refl, tt) reserved_free (refl, (refl, (refl, tt))) (λ j. refl)
