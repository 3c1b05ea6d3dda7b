-- ===== src/Network/Router.antt =====
-- network.go: the router's state and the operations that configure it. The observer of the caller is
-- given by the list of the events that it is told; traces are not modelled, and the sink is nil.
use d_raft.Base.{
  ℕ, ℤ, pos, lt_int, Bool, true, false, not, ◌&&◌, ◌||◌, ◌⊎◌, inl, inr, Option, none, some, is_some,
  List, [], ◌∷◌, String, str_eq, if◌then◌else◌,
}
use d_raft.Sim.Random.{Rand, Floats}
use d_raft.Sim.Scheduler.{EventTag}
use d_raft.Network.Partition.{
  PartitionMatrix, NetworkError, empty_node, nil_handler, duplicate_node, invalid_link,
}

pub record LinkConfig (P : Type 0) : Type 0 where
  pub min_latency : ℤ
  pub max_latency : ℤ
  pub loss_probability : P

pub record Packet (M : Type 0) : Type 0 where
  pub id : ℕ
  pub from : String
  pub to : String
  pub message : M
  pub sent_at : ℕ

-- H is the type of handlers, D of the caller's decision source. `none` is nil.
pub record Router (M H P D : Type 0) : Type 0 where
  pub rng : Rand
  pub default_link : LinkConfig P
  pub links : List ((String × String) × LinkConfig P)
  pub handlers : List (String × H)
  pub partition : Option PartitionMatrix
  pub clone : Option (M → M)
  pub next_packet : ℕ
  pub exhausted : Bool
  pub decisions : Option D
  pub event_tagger : Option (Packet M → Option EventTag)

-- `Validate`
validate_link : {P : Type 0} → Floats P → LinkConfig P → Option NetworkError
validate_link floats c =
    if lt_int c.min_latency (pos 0) || lt_int c.max_latency c.min_latency
    then some invalid_link
    else if not (floats.in_unit c.loss_probability)
    then some invalid_link
    else none

module _ {V : Type 0} where
  pub node_entry : List (String × V) → String → Option V
  node_entry [] node = none
  node_entry ((other, v) ∷ m) node = if str_eq other node then some v else node_entry m node

  -- `delete(r.handlers, node)`
  without_node : List (String × V) → String → List (String × V)
  without_node [] node = []
  without_node ((other, v) ∷ m) node =
      let rest = without_node m node in if str_eq other node then rest else (other, v) ∷ rest

  unfoldable pub route_entry : List ((String × String) × V) → String → String → Option V
  route_entry [] from to = none
  route_entry (((a, b), v) ∷ m) from to =
      if str_eq a from && str_eq b to then some v else route_entry m from to

  -- `delete(r.links, route{from: from, to: to})`
  without_route : List ((String × String) × V) → String → String → List ((String × String) × V)
  without_route [] from to = []
  without_route (((a, b), v) ∷ m) from to =
      let rest = without_route m from to in
      if str_eq a from && str_eq b to then rest else ((a, b), v) ∷ rest

module _ {M H P D : Type 0} where
  -- `NewRouter` with a simulator and a random source.
  unfoldable new_router :
      Floats P → Rand → LinkConfig P → Option (M → M) → NetworkError ⊎ Router M H P D
  unfolding validate_link
  new_router floats rng link clone = elim (validate_link floats link) [
    | some error ↦ inl error
    | none ↦ inr (record {
      rng = rng;
      default_link = link;
      links = [];
      handlers = [];
      partition = none;
      clone = clone;
      next_packet = 1;
      exhausted = false;
      decisions = none;
      event_tagger = none;
    })
  ]

  unfoldable register : Router M H P D → String → Option H → Router M H P D × Option NetworkError
  unfolding node_entry
  register r node none = if str_eq node "" then (r, some empty_node) else (r, some nil_handler)
  register r node (some handler) =
      if str_eq node ""
      then (r, some empty_node)
      else if is_some (node_entry r.handlers node)
      then (r, some duplicate_node)
      else (record r { handlers = (node, handler) ∷ r.handlers }, none)

  unfoldable unregister : Router M H P D → String → Router M H P D × Bool
  unfolding node_entry without_node
  unregister r node =
      if not (is_some (node_entry r.handlers node))
      then (r, false)
      else (record r { handlers = without_node r.handlers node }, true)

  unfoldable set_link :
      Floats P
      → Router M H P D
      → String
      → String
      → LinkConfig P
      → Router M H P D × Option NetworkError
  unfolding validate_link without_route
  set_link floats r from to config =
      if str_eq from "" || str_eq to ""
      then (r, some empty_node)
      else elim (validate_link floats config) [
        | some error ↦ (r, some error)
        | none ↦ (record r { links = ((from, to), config) ∷ without_route r.links from to }, none)
      ]

  unfoldable reset_link : Router M H P D → String → String → Router M H P D
  unfolding without_route
  reset_link r from to = record r { links = without_route r.links from to }

  unfoldable set_partition : Router M H P D → Option PartitionMatrix → Router M H P D
  set_partition r matrix = record r { partition = matrix }

  unfoldable set_decision_source : Router M H P D → Option D → Router M H P D
  set_decision_source r source = record r { decisions = source }

  unfoldable set_packet_event_tagger :
      Router M H P D → Option (Packet M → Option EventTag) → Router M H P D
  set_packet_event_tagger r tagger = record r { event_tagger = tagger }
