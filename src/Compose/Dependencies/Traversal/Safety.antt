-- ===== src/Compose/Dependencies/Traversal/Safety.antt =====
-- The order in which the walk of local/compose/dependencies.go starts services.
use compose_cli.Prelude.{
  String, ◌≡◌, ◌≢◌, refl, Bool, true, false, not, some, List, [], ◌∷◌, ◌++◌, arith, ◌==◌, eq_iff,
  if◌then◌else◌,
}
use compose_cli.Prelude.GoMap.{lookup}
use compose_cli.Compose.Dependencies.Graph.{
  ServiceStatus, service_stopped, service_started, same_status, Vertex, Graph,
}
use compose_cli.Compose.Dependencies.Edges.{is_vertex, IsLinked}
use compose_cli.Compose.Dependencies.Traversal.{
  TraversalConfig, Event, launched, finished, failed, Run, can_start, complete, Step, skip, launch,
  leave, succeed, fail, Reach, here, next, initial_run,
}
use compose_cli.Compose.Dependencies.Traversal.Direction.{in_state, waits_for, IsDirection}
use compose_cli.Compose.Dependencies.Traversal.Starting.{
  SameShape, IsNamed, IsNamed-SameShape, lookup-complete, SameShape-complete, can_start-true,
  waits_for-SameShape,
}

abbrev pub has_finished : List Event → String → Bool
has_finished [] k = false
has_finished (launched n ∷ log) k = has_finished log k
has_finished (finished n ∷ log) k = if n == k then true else has_finished log k
has_finished (failed n ∷ log) k = has_finished log k

-- Whatever a launched node waits for had finished by then.
abbrev pub IsOrdered : (String → String → Bool) → List Event → Type 0
IsOrdered waits [] = Unit
IsOrdered waits (launched n ∷ log) =
    ((c : String) → waits n c ≡ true → has_finished log c ≡ true) × IsOrdered waits log
IsOrdered waits (finished n ∷ log) = IsOrdered waits log
IsOrdered waits (failed n ∷ log) = IsOrdered waits log

pub IsOrdered-split :
    (waits : String → String → Bool) (post pre : List Event) (n c : String)
    → IsOrdered waits (post ++ launched n ∷ pre)
    → waits n c ≡ true
    → has_finished pre c ≡ true
IsOrdered-split waits [] pre n c o w = o.0 c w
IsOrdered-split waits (launched m ∷ post) pre n c o w = IsOrdered-split waits post pre n c o.1 w
IsOrdered-split waits (finished m ∷ post) pre n c o w = IsOrdered-split waits post pre n c o w
IsOrdered-split waits (failed m ∷ post) pre n c o w = IsOrdered-split waits post pre n c o w

same_status-ne : (a b : ServiceStatus) → a ≢ b → same_status a b ≡ false
same_status-ne service_stopped service_stopped other = absurd (other refl)
same_status-ne service_stopped service_started other = refl
same_status-ne service_started service_stopped other = refl
same_status-ne service_started service_started other = absurd (other refl)

module _ {S : Type 0} (name : S → String) (config : TraversalConfig S)
    {edges : Vertex S → List String} (direction : IsDirection config edges) (g : Graph S) where
  -- A graph before the walk: linked, named, and every vertex in the status to skip.
  pub record IsReady : Type 0 where
    pub linked : IsLinked g
    pub named : IsNamed name g
    pub waiting :
        (k : String)
        → is_vertex g k ≡ true
        → in_state g config.adjacent_service_status_to_skip k ≡ true

  -- The statuses say which nodes have finished, and the log is in order.
  pub record Inv {E : Type 0} (s : Run S E) : Type 0 where
    pub shape : SameShape s.graph g
    pub marked :
        (k : String)
        → is_vertex g k ≡ true
        → in_state s.graph config.adjacent_service_status_to_skip k ≡ not (has_finished s.log k)
    pub ordered : IsOrdered (waits_for edges g) s.log

  module _ (ready : IsReady) {E : Type 0} where
    Inv-initial : (nodes : List String) → Inv (initial_run {E = E} g nodes)
    unfolding initial_run
    Inv-initial nodes = record { shape = λ k. refl; marked = ready.waiting; ordered = tt }

    -- A node is only launched after whatever it waits for.
    launch_ordered :
        {s : Run S E} (n : String)
        → Inv s
        → can_start name config s.graph n ≡ some true
        → (c : String) → waits_for edges g n c ≡ true
        → has_finished s.log c ≡ true
    launch_ordered {s} n inv starts c waits = ground (
      arith,
      can_start-true name config direction s.graph
          (IsNamed-SameShape name s.graph g inv.shape ready.named) n starts c,
      waits_for-SameShape direction s.graph g inv.shape n c,
      inv.marked c (direction.closed_lem g n c ready.linked waits),
    )

    succeed_marked :
        {s : Run S E} (n : String) (v : Vertex S)
        → Inv s
        → lookup n s.graph.vertices ≡ some v
        → (k : String) → is_vertex g k ≡ true
        → in_state (complete name config s.graph v) config.adjacent_service_status_to_skip k
          ≡ not (has_finished (finished n ∷ s.log) k)
    succeed_marked {s} n v inv found k vertex = ground (
      arith,
      lookup-complete name config s.graph v k,
      inv.marked k vertex,
      eq_iff n k,
      same_status-ne config.target_service_status config.adjacent_service_status_to_skip
          direction.status_lem,
      IsNamed-SameShape name s.graph g inv.shape ready.named n,
    )

    pub Step-Inv : {s t : Run S E} → Step name config s t → Inv s → Inv t
    Step-Inv (skip before after n ns at blocked) inv = record {
      shape = inv.shape;
      marked = inv.marked;
      ordered = inv.ordered;
    }
    Step-Inv (launch before after n ns at starts) inv = record {
      shape = inv.shape;
      marked = inv.marked;
      ordered = (launch_ordered n inv starts, inv.ordered);
    }
    Step-Inv (leave before after at) inv = record {
      shape = inv.shape;
      marked = inv.marked;
      ordered = inv.ordered;
    }
    Step-Inv {s} (succeed before after n v ns at found same) inv = record {
      shape = SameShape-complete name config s.graph g v inv.shape;
      marked = succeed_marked n v inv found;
      ordered = inv.ordered;
    }
    Step-Inv (fail before after n e at) inv = record {
      shape = inv.shape;
      marked = inv.marked;
      ordered = inv.ordered;
    }

    pub Reach-Inv :
        (nodes : List String) {s : Run S E} → Reach name config (initial_run g nodes) s → Inv s
    Reach-Inv nodes here = Inv-initial nodes
    Reach-Inv nodes (next r st) = Step-Inv st (Reach-Inv nodes r)
