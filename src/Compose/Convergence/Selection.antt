-- ===== src/Compose/Convergence/Selection.antt =====
-- The containers of a service among those of the project, as local/compose/convergence.go picks them.
use compose_cli.Prelude.{
  String, ◌≡◌, ◌≢◌, refl, sym, ap, ◌∙◌, Bool-cases, inl, inr, List, [], ◌∷◌, eq_iff, ==-false,
  not_same_text, ◌==◌,
}
use compose_cli.Compose.Types.{Container, label, service_label}
use compose_cli.Compose.Containers.{filter, is_service, is_service-label}

-- The first list has, in their order, those of the second that are labelled with the service.
pub data IsSelection (service : String) : List Container → List Container → Type 0 where
  nothing : IsSelection service [] []
  takes :
      {own observed : List Container} (c : Container)
      → label c service_label ≡ service
      → IsSelection service own observed
      → IsSelection service (c ∷ own) (c ∷ observed)
  skips :
      {own observed : List Container} (c : Container)
      → label c service_label ≢ service
      → IsSelection service own observed
      → IsSelection service own (c ∷ observed)

pub filter-IsSelection :
    (service : String) (observed : List Container)
    → IsSelection service (filter observed (is_service (service ∷ []))) observed
unfolding filter
filter-IsSelection service [] = nothing
filter-IsSelection service (c ∷ observed) = elim (Bool-cases (service == label c service_label)) [
  | inl own ↦ rw (is_service-label service c ∙ own) (
      takes c (sym ((eq_iff service (label c service_label)).0 own))
        (filter-IsSelection service observed))
  | inr other ↦ rw (is_service-label service c ∙ other) (
      skips c (λ e. not_same_text service (label c service_label) other (sym e))
        (filter-IsSelection service observed))
]

pub IsSelection-filter :
    {service : String} {own observed : List Container}
    → IsSelection service own observed
    → filter observed (is_service (service ∷ [])) ≡ own
unfolding filter
IsSelection-filter nothing = refl
IsSelection-filter {service} (takes c labelled rest) =
    rw (is_service-label service c ∙ (eq_iff service (label c service_label)).1 (sym labelled))
      (ap (◌∷◌ c) (IsSelection-filter rest))
IsSelection-filter {service} (skips c other rest) =
    rw (is_service-label service c ∙ ==-false service (label c service_label) (λ e. other (sym e)))
      (IsSelection-filter rest)
