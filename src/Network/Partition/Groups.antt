-- ===== src/Network/Partition/Groups.antt =====
-- network.go: what a matrix of groups permits.
use d_raft.Base.{
  ◌≡◌, refl, sym, ap, ◌∙◌, Bool, Bool-cases, inl, inr, false, ◌&&◌, ◌||◌, Option, none, some, List,
  [], ◌∷◌, ◌++◌, String, str_eq, arith, contains, is_empty,
}
use d_raft.Network.Partition.{
  PartitionMatrix, partition_made, partition_refused, invalid_matrix, has_route, allows, see_group,
  routes_from, group_routes, join_groups, new_partitions,
}

-- The two nodes stand in one of the groups.
abbrev pub same_group : List (List String) → String → String → Bool
same_group [] source target = false
same_group (group ∷ groups) source target =
    (contains group source && contains group target) || same_group groups source target

has_route-append :
    (xs ys : List (String × String)) (s t : String)
    → has_route (xs ++ ys) s t ≡ (has_route xs s t || has_route ys s t)
unfolding has_route
has_route-append [] ys s t = refl
has_route-append ((a, b) ∷ xs) ys s t = ground (arith, has_route-append xs ys s t)

has_route-routes_from :
    (from : String) (group : List String) (s t : String)
    → has_route (routes_from from group) s t ≡ (str_eq from s && contains group t)
unfolding has_route routes_from contains
has_route-routes_from from [] s t = ground arith
has_route-routes_from from (x ∷ group) s t = ground (arith, has_route-routes_from from group s t)

has_route-group_routes :
    (froms group : List String) (s t : String)
    → has_route (group_routes froms group) s t ≡ (contains froms s && contains group t)
unfolding group_routes contains has_route
has_route-group_routes [] group s t = refl
has_route-group_routes (from ∷ froms) group s t = ground (
  arith,
  has_route-append (routes_from from group) (group_routes froms group) s t,
  has_route-routes_from from group s t,
  has_route-group_routes froms group s t,
)

-- The matrix in which a group has joined the nodes.
abbrev grouped : PartitionMatrix → List String → List String → PartitionMatrix
grouped m group nodes = record { nodes = nodes; allowed = group_routes group group ++ m.allowed }

group_joined :
    (m m' : PartitionMatrix) (group : List String) (groups : List (List String)) (s t : String)
    (seen : Option (List String))
    → ((nodes : List String)
        → join_groups (grouped m group nodes) groups ≡ partition_made m'
        → has_route m'.allowed s t
          ≡ (same_group groups s t || has_route (group_routes group group ++ m.allowed) s t))
    → elim seen [
      | none ↦ partition_refused invalid_matrix
      | some nodes ↦ join_groups (grouped m group nodes) groups
    ]
      ≡ partition_made m'
    → has_route m'.allowed s t ≡ (same_group (group ∷ groups) s t || has_route m.allowed s t)
group_joined m m' group groups s t none rest e = cc (e)
group_joined m m' group groups s t (some nodes) rest e = ground (
  arith,
  rest nodes e,
  has_route-append (group_routes group group) m.allowed s t,
  has_route-group_routes group group s t,
)

join_groups-has_route :
    (m m' : PartitionMatrix) (groups : List (List String)) (s t : String)
    → join_groups m groups ≡ partition_made m'
    → has_route m'.allowed s t ≡ (same_group groups s t || has_route m.allowed s t)
unfolding join_groups
join_groups-has_route m m' [] s t e =
    let same : m ≡ m' = cc (e) in ap (λ (x : PartitionMatrix). has_route x.allowed s t) (sym same)
join_groups-has_route m m' (group ∷ groups) s t e =
    let rest =
      λ (nodes : List String). join_groups-has_route (grouped m group nodes) m' groups s t in
    elim (Bool-cases (is_empty group)) [
      | inl empty ↦ let f = rw empty at e in cc (f)
      | inr full ↦ group_joined m m' group groups s t (see_group m.nodes group) rest (rw full at e)
    ]

same_group_sym :
    (groups : List (List String)) (s t : String) → same_group groups s t ≡ same_group groups t s
same_group_sym [] s t = refl
same_group_sym (group ∷ groups) s t = ground (arith, same_group_sym groups s t)

made_routes :
    (groups : List (List String)) (m : PartitionMatrix) (s t : String)
    → new_partitions groups ≡ partition_made m
    → allows (some m) s t ≡ same_group groups s t
unfolding new_partitions allows has_route
made_routes [] m s t e = cc (e)
made_routes (group ∷ groups) m s t e =
    ground
      (arith, join_groups-has_route (record { nodes = []; allowed = [] }) m (group ∷ groups) s t e)

-- Where NewPartitions makes a matrix of groups, it permits traffic from one node to another exactly
-- where they stand in one group; so it is symmetric, and permits a node of a group traffic to itself.
pub allows-new_partitions :
    (groups : List (List String)) (m : PartitionMatrix) (source target : String)
    → new_partitions groups ≡ partition_made m
    → (allows (some m) source target ≡ same_group groups source target)
      × (allows (some m) source target ≡ allows (some m) target source)
allows-new_partitions groups m source target e =
    let there = made_routes groups m source target e in
    (
      there,
      there ∙ same_group_sym groups source target ∙ sym (made_routes groups m target source e),
    )
