-- ===== src/Context/Metadata/RoundTrip.antt =====
-- `UnmarshalJSON` of api/context/store/contextmetadata.go after `MarshalJSON`.
use compose_cli.Prelude.{
  String, ◌≡◌, refl, sym, ap, ◌∙◌, Bool, true, false, Bool-cases, Option, none, some, inl, inr, [],
  ◌∷◌, ◌==◌, if◌then◌else◌, arith, eq_iff,
}
use compose_cli.Prelude.GoMap.{GoMap, IsMap, lookup, insert, lookup-insert}
use compose_cli.Context.Metadata.{
  Value, text, ContextMetadata, put_text, put_all, to_object, of_object, empty_metadata,
}
use compose_cli.Context.Metadata.Decoding.{is_reserved, first_of, field_of, HasTexts, of_object_lem}

some_same : {a b : String} (o : Option String) → o ≡ some a → o ≡ some b → b ≡ a
some_same o first second = cc (sym first ∙ second)

-- The two have the same fields, and the same additional field under each key.
pub record IsSame {V : Type 0} (dc dc' : ContextMetadata V) : Type 0 where
  pub type : dc'.type ≡ dc.type
  pub description : dc'.description ≡ dc.description
  pub stack_orchestrator : dc'.stack_orchestrator ≡ dc.stack_orchestrator
  pub additional : (j : String) → lookup j dc'.additional_fields ≡ lookup j dc.additional_fields

module _ {V : Type 0} where
  lookup-put_all :
      (k : String) (fields s : GoMap (Value V))
      → IsMap fields
      → lookup k (put_all fields s) ≡ first_of (lookup k fields) (lookup k s)
  unfolding put_all lookup
  lookup-put_all k [] s distinct = refl
  lookup-put_all k ((j, v) ∷ fields) s (fresh, distinct) = ground (
    arith,
    eq_iff j k,
    fresh,
    lookup-put_all k fields (insert j v s) distinct,
    lookup-insert j k v s,
  )

  lookup-put_text-other :
      (key j t : String) (s : GoMap (Value V))
      → (key == j) ≡ false
      → lookup j (put_text key t s) ≡ lookup j s
  unfolding put_text
  lookup-put_text-other key j t s apart = ground (arith, lookup-insert key j (text t) s)

  field_of-put_text :
      (key t : String) (s : GoMap (Value V))
      → lookup key s ≡ none
      → field_of (lookup key (put_text key t s)) "" ≡ some t
  unfolding put_text
  field_of-put_text key t s fresh = elim (Bool-cases (t == "")) [
    | inl empty ↦ rw (empty, fresh) (ap some (sym ((eq_iff t "").0 empty)))
    | inr full ↦ rw (full, lookup-insert key key (text t) s, (eq_iff key key).1 refl) refl
  ]

  -- The part of the object that does not come from the additional fields.
  abbrev base : ContextMetadata V → GoMap (Value V)
  base dc = put_text "Type" dc.type (
      put_text "StackOrchestrator" dc.stack_orchestrator (put_text "Description" dc.description []))

  nil_lookup : (j : String) → lookup {V = Value V} j [] ≡ none
  unfolding lookup
  nil_lookup j = refl

  base_type : (dc : ContextMetadata V) → field_of (lookup "Type" (base dc)) "" ≡ some dc.type
  base_type dc = field_of-put_text "Type" dc.type _ (
      lookup-put_text-other "StackOrchestrator" "Type" dc.stack_orchestrator _ refl
      ∙ lookup-put_text-other "Description" "Type" dc.description [] refl
      ∙ nil_lookup "Type")

  base_stack_orchestrator :
      (dc : ContextMetadata V)
      → field_of (lookup "StackOrchestrator" (base dc)) "" ≡ some dc.stack_orchestrator
  base_stack_orchestrator dc =
      ap (λ o. field_of o "") (lookup-put_text-other "Type" "StackOrchestrator" dc.type _ refl)
      ∙ field_of-put_text "StackOrchestrator" dc.stack_orchestrator _ (
          lookup-put_text-other "Description" "StackOrchestrator" dc.description [] refl
          ∙ nil_lookup "StackOrchestrator")

  base_description :
      (dc : ContextMetadata V) → field_of (lookup "Description" (base dc)) "" ≡ some dc.description
  base_description dc =
      ap (λ o. field_of o "")
        (lookup-put_text-other "Type" "Description" dc.type _ refl
          ∙ lookup-put_text-other "StackOrchestrator" "Description" dc.stack_orchestrator _ refl)
      ∙ field_of-put_text "Description" dc.description [] (nil_lookup "Description")

  base_additional :
      (dc : ContextMetadata V) (j : String) → is_reserved j ≡ false → lookup j (base dc) ≡ none
  base_additional dc j free =
      lookup-put_text-other "Type" j dc.type _ (ground (arith, eq_iff j "Type", eq_iff "Type" j))
      ∙ lookup-put_text-other "StackOrchestrator" j dc.stack_orchestrator _
          (ground (arith, eq_iff j "StackOrchestrator", eq_iff "StackOrchestrator" j))
      ∙ lookup-put_text-other "Description" j dc.description []
          (ground (arith, eq_iff j "Description", eq_iff "Description" j))
      ∙ nil_lookup j

  abbrev AreTexts : GoMap (Value V) → Type 0
  AreTexts s = (j : String) (v : Value V) → lookup j s ≡ some v → (t : String) × (v ≡ text t)

  put_text-AreTexts :
      (key t : String) (s : GoMap (Value V)) → AreTexts s → AreTexts (put_text key t s)
  unfolding put_text
  put_text-AreTexts key t s texts j v found = elim (Bool-cases (t == "")) [
    | inl empty ↦ texts j v (rw (rw (empty, put_text) at found))
    | inr full ↦ elim (Bool-cases (key == j)) [
      | inl here ↦ (t, ground (arith, lookup-insert key j (text t) s))
      | inr apart ↦ texts j v (ground (arith, lookup-insert key j (text t) s))
    ]
  ]

  base-AreTexts : (dc : ContextMetadata V) → AreTexts (base dc)
  base-AreTexts dc = put_text-AreTexts "Type" dc.type _ (
      put_text-AreTexts "StackOrchestrator" dc.stack_orchestrator _ (
        put_text-AreTexts "Description" dc.description []
          (λ j v found. absurd (cc (sym (nil_lookup j) ∙ found)))))

  lookup-to_object :
      (dc : ContextMetadata V) (j : String)
      → IsMap dc.additional_fields
      → lookup j (to_object dc) ≡ first_of (lookup j dc.additional_fields) (lookup j (base dc))
  unfolding to_object
  lookup-to_object dc j distinct = lookup-put_all j dc.additional_fields (base dc) distinct

  additional_same :
      (kept : Bool) (decoded given own nothing field : Option (Value V))
      → decoded ≡ (if kept then nothing else first_of given nothing)
      → nothing ≡ none
      → given ≡ first_of field own
      → (kept ≡ true → field ≡ none)
      → (kept ≡ false → own ≡ none)
      → decoded ≡ field
  additional_same true decoded given own nothing field d n g reserved_free rest_free =
      ground (arith, reserved_free refl)
  additional_same false decoded given own nothing field d n g reserved_free rest_free =
      ground (arith, rest_free refl)

  -- An object that has an additional field in no reserved key has the struct's own in those.
  own_field :
      (dc : ContextMetadata V) (m : GoMap (Value V)) (j : String)
      → IsMap dc.additional_fields
      → lookup j dc.additional_fields ≡ none
      → ((k : String) → lookup k m ≡ lookup k (to_object dc))
      → lookup j m ≡ lookup j (base dc)
  own_field dc m j distinct free same =
      same j ∙ lookup-to_object dc j distinct ∙ ap (λ o. first_of o (lookup j (base dc))) free

  -- `UnmarshalJSON` into an empty struct gives back what `MarshalJSON` encoded, in whatever order
  -- the keys of the JSON object come, and does not panic. Conditions: no additional field has the
  -- key of one of the struct's own fields, and no key stands twice in a map.
  pub of_object-to_object :
      (dc : ContextMetadata V) (m : GoMap (Value V))
      → IsMap dc.additional_fields
      → ((j : String) → is_reserved j ≡ true → lookup j dc.additional_fields ≡ none)
      → IsMap m
      → ((j : String) → lookup j m ≡ lookup j (to_object dc))
      → (dc' : ContextMetadata V) × (of_object empty_metadata m ≡ some dc') × IsSame dc dc'
  of_object-to_object dc m distinct free distinct_m same =
      let (dc', decoded) = of_object_lem empty_metadata m distinct_m texts in
      (
        dc',
        decoded.done,
        record {
          type =
              some_same _ (ap (λ o. field_of o "") (own "Type" refl) ∙ base_type dc) decoded.type;
          description =
              some_same _ (ap (λ o. field_of o "") (own "Description" refl) ∙ base_description dc)
                decoded.description;
          stack_orchestrator =
              some_same _
                (ap (λ o. field_of o "") (own "StackOrchestrator" refl)
                  ∙ base_stack_orchestrator dc)
                decoded.stack_orchestrator;
          additional = λ j.
              additional_same (is_reserved j) (lookup j dc'.additional_fields) (lookup j m)
                (lookup j (base dc)) (lookup j []) (lookup j dc.additional_fields)
                (decoded.additional j) (nil_lookup j) (same j ∙ lookup-to_object dc j distinct)
                (free j) (base_additional dc j);
        },
      )
    where
      own : (j : String) → is_reserved j ≡ true → lookup j m ≡ lookup j (base dc)
      own j kept = own_field dc m j distinct (free j kept) same

      texts : HasTexts m
      texts j v kept found = base-AreTexts dc j v (sym (own j kept) ∙ found)
