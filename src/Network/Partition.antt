-- ===== src/Network/Partition.antt =====
-- network.go: connectivity matrices. A map to `struct{}` is the list of its keys.
pub mod Groups
use d_raft.Base.{
  ℕ, Bool, true, false, not, ◌&&◌, ◌||◌, Option, none, some, List, [], ◌∷◌, ◌++◌, String, str_eq,
  contains, ◌==◌, if◌then◌else◌, is_empty, length,
}

pub data NetworkError : Type 0 where
  empty_node nil_handler duplicate_node unknown_source unknown_target : NetworkError
  invalid_link invalid_matrix packet_exhausted invalid_network_decision : NetworkError

pub record PartitionMatrix : Type 0 where
  pub nodes : List String
  pub allowed : List (String × String)

-- A matrix, or the error that refuses to make one.
pub data Partitioned : Type 0 where
  partition_made : PartitionMatrix → Partitioned
  partition_refused : NetworkError → Partitioned

has_route : List (String × String) → String → String → Bool
has_route [] source target = false
has_route ((from, to) ∷ routes) source target =
    str_eq from source && str_eq to target || has_route routes source target

-- `Allows`; nil permits everything.
pub allows : Option PartitionMatrix → String → String → Bool
unfolding has_route
allows none source target = true
allows (some m) source target = has_route m.allowed source target

-- The loop over the nodes of `NewPartitionMatrix`, which refuses an empty or a repeated name.
names_refused : List String → List String → Bool
unfolding contains
names_refused seen [] = false
names_refused seen (node ∷ nodes) =
    if str_eq node "" || contains seen node then true else names_refused (node ∷ seen) nodes

-- The routes of a row of the matrix.
row_routes : String → List String → List Bool → List (String × String)
row_routes from (to ∷ nodes) (permits ∷ row) =
    let rest = row_routes from nodes row in if permits then (from, to) ∷ rest else rest
row_routes from _ _ = []

-- The loop over the rows, of which there are as many as nodes; `none` is a row of another length.
matrix_routes : List String → List String → List (List Bool) → Option (List (String × String))
unfolding row_routes
matrix_routes nodes (from ∷ froms) (row ∷ rows) =
    let rest = matrix_routes nodes froms rows in
    if not (length row == length nodes)
    then none
    else elim rest [ none ↦ none | some routes ↦ some (row_routes from nodes row ++ routes) ]
matrix_routes nodes _ _ = some []

unfoldable new_partition_matrix : List String → List (List Bool) → Partitioned
unfolding names_refused matrix_routes
new_partition_matrix nodes allowed =
    if is_empty nodes || not (length allowed == length nodes)
    then partition_refused invalid_matrix
    else if names_refused [] nodes
    then partition_refused invalid_matrix
    else elim (matrix_routes nodes nodes allowed) [
      | none ↦ partition_refused invalid_matrix
      | some routes ↦ partition_made (record { nodes = nodes; allowed = routes })
    ]

-- The nodes of a group join the nodes that were seen; `none` is an empty or a repeated name. The map
-- `seen` has the nodes of the matrix.
pub see_group : List String → List String → Option (List String)
unfolding contains
see_group seen [] = some seen
see_group seen (node ∷ group) =
    if str_eq node "" || contains seen node then none else see_group (seen ++ node ∷ []) group

routes_from : String → List String → List (String × String)
routes_from from [] = []
routes_from from (to ∷ group) = (from, to) ∷ routes_from from group

group_routes : List String → List String → List (String × String)
unfolding routes_from
group_routes [] group = []
group_routes (from ∷ froms) group = routes_from from group ++ group_routes froms group

-- The loop over the groups.
pub join_groups : PartitionMatrix → List (List String) → Partitioned
unfolding see_group group_routes
join_groups m [] = partition_made m
join_groups m (group ∷ groups) =
    if is_empty group then partition_refused invalid_matrix else elim (see_group m.nodes group) [
      | none ↦ partition_refused invalid_matrix
      | some nodes ↦
          join_groups (record { nodes = nodes; allowed = group_routes group group ++ m.allowed })
            groups
    ]

unfoldable pub new_partitions : List (List String) → Partitioned
unfolding join_groups
new_partitions groups =
    if is_empty groups
    then partition_refused invalid_matrix
    else join_groups (record { nodes = []; allowed = [] }) groups
