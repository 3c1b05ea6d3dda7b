-- ===== src/Network/Events.antt =====
-- network.go: what the router tells of a packet.
use d_raft.Base.{ℕ, Bool, false, List, [], ◌∷◌}
use d_raft.Sim.Scheduler.{SimError}
use d_raft.Network.Partition.{NetworkError}
use d_raft.Network.Router.{Packet}

pub data DropReason : Type 0 where
  not_dropped drop_loss drop_partition drop_target_unavailable : DropReason

pub data NetworkEventKind : Type 0 where
  packet_scheduled packet_delivered packet_dropped : NetworkEventKind

pub record NetworkEvent (M : Type 0) : Type 0 where
  pub kind : NetworkEventKind
  pub packet : Packet M
  pub at : ℕ
  pub delivery_at : ℕ
  pub reason : DropReason
  pub was_in_flight : Bool

pub record SendResult : Type 0 where
  pub packet_id : ℕ
  pub scheduled : Bool
  pub delivery_at : ℕ
  pub drop_reason : DropReason

-- The errors of `Send`: the router's own, those of the decision source and of the tagger, and those
-- of the simulator.
pub data SendError : Type 0 where
  router_error : NetworkError → SendError
  decision_failed tag_failed : SendError
  simulator_error : SimError → SendError

-- What `Send` returns, with the events that the observer is told.
pub data Sending (M : Type 0) : Type 0 where
  sent : SendResult → List (NetworkEvent M) → Sending M
  not_sent : SendError → Sending M

-- `drop`, to the events that it tells.
unfoldable pub drop :
    {M : Type 0} → ℕ → Packet M → DropReason → ℕ → Bool → SendResult × List (NetworkEvent M)
drop now packet reason delivery_at was_in_flight = (
  record { packet_id = packet.id; scheduled = false; delivery_at = 0; drop_reason = reason },
  record {
    kind = packet_dropped;
    packet = packet;
    at = now;
    delivery_at = delivery_at;
    reason = reason;
    was_in_flight = was_in_flight;
  }
      ∷ [],
)
