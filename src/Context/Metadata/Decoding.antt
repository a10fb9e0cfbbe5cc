-- ===== src/Context/Metadata/Decoding.antt =====
-- The loop of `UnmarshalJSON` of api/context/store/contextmetadata.go.
use mathlib.Core.Path.{subst}
use compose_cli.Prelude.{
  String, String-cases, ◌≡◌, refl, sym, ap, ◌∙◌, Bool, true, false, ◌||◌, Option, none, some, inl,
  inr, [], ◌∷◌, ◌==◌, if◌then◌else◌, arith, ==-false, eq_iff,
}
use compose_cli.Prelude.GoMap.{GoMap, IsMap, lookup, insert, lookup-insert}
use compose_cli.Context.Metadata.{Value, text, other, ContextMetadata, set_field, of_object}

abbrev pub is_reserved : String → Bool
is_reserved k = k == "Description" || (k == "StackOrchestrator" || k == "Type")

module _ {V : Type 0} where
  abbrev pub first_of : Option (Value V) → Option (Value V) → Option (Value V)
  first_of none o = o
  first_of (some v) o = some v

  -- What a field becomes: its text in the object, or else what it was; `none` if it is no text.
  abbrev pub field_of : Option (Value V) → String → Option String
  field_of none t = some t
  field_of (some (text t)) _ = some t
  field_of (some (other v)) _ = none

  -- One round of the loop.
  record IsRound (dc : ContextMetadata V) (k : String) (v : Value V) (dc' : ContextMetadata V)
      : Type 0 where
    pub done : set_field dc k v ≡ some dc'
    pub type : field_of (if k == "Type" then some v else none) dc.type ≡ some dc'.type
    pub description :
        field_of (if k == "Description" then some v else none) dc.description ≡ some dc'.description
    pub stack_orchestrator :
        field_of (if k == "StackOrchestrator" then some v else none) dc.stack_orchestrator
        ≡ some dc'.stack_orchestrator
    pub additional :
        (j : String)
        → lookup j dc'.additional_fields ≡ (
            if k == j
            then (if is_reserved k then lookup j dc.additional_fields else some v)
            else lookup j dc.additional_fields)

  set_description :
      (dc : ContextMetadata V) (t : String)
      → IsRound dc "Description" (text t) (record dc { description = t })
  unfolding set_field
  set_description dc t = record {
    done = refl;
    type = refl;
    description = refl;
    stack_orchestrator = refl;
    additional = λ j. ground arith;
  }

  set_stack_orchestrator :
      (dc : ContextMetadata V) (t : String)
      → IsRound dc "StackOrchestrator" (text t) (record dc { stack_orchestrator = t })
  unfolding set_field
  set_stack_orchestrator dc t = record {
    done = refl;
    type = refl;
    description = refl;
    stack_orchestrator = refl;
    additional = λ j. ground arith;
  }

  set_type :
      (dc : ContextMetadata V) (t : String) → IsRound dc "Type" (text t) (record dc { type = t })
  unfolding set_field
  set_type dc t = record {
    done = refl;
    type = refl;
    description = refl;
    stack_orchestrator = refl;
    additional = λ j. ground arith;
  }

  set_additional :
      (dc : ContextMetadata V) (k : String) (v : Value V)
      → (k == "Description") ≡ false
      → (k == "StackOrchestrator") ≡ false
      → (k == "Type") ≡ false
      → IsRound dc k v (record dc { additional_fields = insert k v dc.additional_fields })
  unfolding set_field
  set_additional dc k v a b c = record {
    done = set_field-additional v;
    type = rw c refl;
    description = rw a refl;
    stack_orchestrator = rw b refl;
    additional = λ j. rw (a, b, c) (lookup-insert k j v dc.additional_fields);
  }
    where
      set_field-additional :
          (w : Value V)
          → set_field dc k w
            ≡ some (record dc { additional_fields = insert k w dc.additional_fields })
      set_field-additional (text t) = rw (a, b, c) refl
      set_field-additional (other w) = rw (a, b, c) refl

  -- Every round gives a result, if a field of the struct has a text.
  set_lem :
      (dc : ContextMetadata V) (k : String) (v : Value V)
      → (is_reserved k ≡ true → (t : String) × (v ≡ text t))
      → (dc' : ContextMetadata V) × IsRound dc k v dc'
  set_lem dc k v is_text = elim (String-cases k "Description") [
    | inl a ↦ reserved a refl (λ t. (record dc { description = t }, set_description dc t))
    | inr a ↦ elim (String-cases k "StackOrchestrator") [
      | inl b ↦
          reserved b refl (λ t. (record dc { stack_orchestrator = t }, set_stack_orchestrator dc t))
      | inr b ↦ elim (String-cases k "Type") [
        | inl c ↦ reserved c refl (λ t. (record dc { type = t }, set_type dc t))
        | inr c ↦ (
          record dc { additional_fields = insert k v dc.additional_fields },
          set_additional dc k v (==-false k "Description" a) (==-false k "StackOrchestrator" b)
              (==-false k "Type" c),
        )
      ]
    ]
  ]
    where
      reserved :
          {name : String}
          → k ≡ name
          → is_reserved name ≡ true
          → ((t : String) → (dc' : ContextMetadata V) × IsRound dc name (text t) dc')
          → (dc' : ContextMetadata V) × IsRound dc k v dc'
      reserved {name} same kept set =
          let (t, e) = is_text (subst (λ x. is_reserved x ≡ true) (sym same) kept) in
          subst (λ x. (dc' : ContextMetadata V) × IsRound dc x v dc') (sym same)
            (subst (λ w. (dc' : ContextMetadata V) × IsRound dc name w dc') (sym e) (set t))

  -- What the whole loop makes of an object.
  pub record IsDecoded (dc : ContextMetadata V) (m : GoMap (Value V)) (dc' : ContextMetadata V)
      : Type 0 where
    pub done : of_object dc m ≡ some dc'
    pub type : field_of (lookup "Type" m) dc.type ≡ some dc'.type
    pub description : field_of (lookup "Description" m) dc.description ≡ some dc'.description
    pub stack_orchestrator :
        field_of (lookup "StackOrchestrator" m) dc.stack_orchestrator ≡ some dc'.stack_orchestrator
    pub additional :
        (j : String)
        → lookup j dc'.additional_fields ≡ (
            if is_reserved j
            then lookup j dc.additional_fields
            else first_of (lookup j m) (lookup j dc.additional_fields))

  -- The values of the struct's own fields are texts.
  abbrev pub HasTexts : GoMap (Value V) → Type 0
  HasTexts m =
      (k : String) (v : Value V)
      → is_reserved k ≡ true
      → lookup k m ≡ some v
      → (t : String) × (v ≡ text t)

  field_step :
      (here : Bool) (v : Value V) (o : Option (Value V)) (t t' : String)
      → (here ≡ true → o ≡ none)
      → field_of (if here then some v else none) t ≡ some t'
      → field_of (if here then some v else o) t ≡ field_of o t'
  field_step true v o t t' gone set = set ∙ sym (ap (λ x. field_of x t') (gone refl))
  field_step false v o t t' gone set = ap (λ x. field_of o x) (cc set)

  lookup-twice :
      (k j : String) (m : GoMap (Value V)) → lookup k m ≡ none → (k == j) ≡ true → lookup j m ≡ none
  lookup-twice k j m fresh same = subst (λ x. lookup x m ≡ none) ((eq_iff k j).0 same) fresh

  field_then :
      (name k : String) (v : Value V) (m : GoMap (Value V)) (t t' : String)
      → lookup k m ≡ none
      → field_of (if k == name then some v else none) t ≡ some t'
      → field_of (lookup name ((k, v) ∷ m)) t ≡ field_of (lookup name m) t'
  unfolding lookup
  field_then name k v m t t' fresh set =
      field_step (k == name) v (lookup name m) t t' (lookup-twice k name m fresh) set

  additional_step :
      (here reserved_k reserved_j : Bool) (v : Value V) (o before one after : Option (Value V))
      → (here ≡ true → reserved_k ≡ reserved_j)
      → (here ≡ true → o ≡ none)
      → one ≡ (if here then (if reserved_k then before else some v) else before)
      → after ≡ (if reserved_j then one else first_of o one)
      → after ≡ (if reserved_j then before else first_of (if here then some v else o) before)
  additional_step true rk true v o before one after agree gone set decoded =
      ground (arith, agree refl)
  additional_step true rk false v o before one after agree gone set decoded =
      ground (arith, agree refl, gone refl)
  additional_step false rk rj v o before one after agree gone set decoded = ground arith

  lookup-later :
      (k j : String) (v w : Value V) (m : GoMap (Value V))
      → lookup k m ≡ none
      → lookup j m ≡ some w
      → lookup j ((k, v) ∷ m) ≡ some w
  unfolding lookup
  lookup-later k j v w m fresh found = elim (String-cases k j) [
    | inl same ↦ absurd (cc (sym (subst (λ x. lookup x m ≡ none) same fresh) ∙ found))
    | inr apart ↦ rw (==-false k j apart) found
  ]

  lookup-head : (k : String) (v : Value V) (m : GoMap (Value V)) → lookup k ((k, v) ∷ m) ≡ some v
  unfolding lookup
  lookup-head k v m = rw ((eq_iff k k).1 refl) refl

  of_object-step :
      (dc one dc' : ContextMetadata V) (k : String) (v : Value V) (m : GoMap (Value V))
      → set_field dc k v ≡ some one
      → of_object one m ≡ some dc'
      → of_object dc ((k, v) ∷ m) ≡ some dc'
  unfolding of_object
  of_object-step dc one dc' k v m set rest = rw (set, of_object) rest

  pub of_object_lem :
      (dc : ContextMetadata V) (m : GoMap (Value V))
      → IsMap m
      → HasTexts m
      → (dc' : ContextMetadata V) × IsDecoded dc m dc'
  unfolding of_object lookup
  of_object_lem dc [] distinct texts = (
    dc,
    record {
      done = refl;
      type = refl;
      description = refl;
      stack_orchestrator = refl;
      additional = λ j. ground arith;
    },
  )
  of_object_lem dc ((k, v) ∷ m) (fresh, distinct) texts =
      let (one, set) = set_lem dc k v (λ kept. texts k v kept (lookup-head k v m)) in
      let (dc', decoded) =
        of_object_lem one m distinct
          (λ j w kept found. texts j w kept (lookup-later k j v w m fresh found)) in
      (
        dc',
        record {
          done = of_object-step dc one dc' k v m set.done decoded.done;
          type = field_then "Type" k v m dc.type one.type fresh set.type ∙ decoded.type;
          description =
              field_then "Description" k v m dc.description one.description fresh set.description
              ∙ decoded.description;
          stack_orchestrator =
              field_then "StackOrchestrator" k v m dc.stack_orchestrator one.stack_orchestrator
                fresh set.stack_orchestrator
              ∙ decoded.stack_orchestrator;
          additional = λ j.
              additional_step (k == j) (is_reserved k) (is_reserved j) v (lookup j m)
                (lookup j dc.additional_fields) (lookup j one.additional_fields)
                (lookup j dc'.additional_fields) (λ same. ap is_reserved ((eq_iff k j).0 same))
                (lookup-twice k j m fresh) (set.additional j) (decoded.additional j);
        },
      )
