-- ===== src/Network/Send/Fate.antt =====
-- network.go: the outcomes of Send, and what taking an identifier keeps of a router.
use d_raft.Base.{
  ℕ, ℤ, pos, negsuc, lt_int, ◌+◌, ◌≤◌, ◌≡◌, ◌⊎◌, inl, inr, refl, Bool, Bool-cases, true, false,
  ◌&&◌, is_some, arith, [], ◌∷◌, String, ◌==◌, max_uint64,
}
use d_raft.Sim.Scheduler.{zero_tag, Simulator, max_int64}
use d_raft.Sim.Scheduler.Joining.{Placed}
use d_raft.Network.Events.{
  drop_loss, drop_partition, not_dropped, packet_scheduled, Sending, sent, not_sent, SendError,
  drop,
}
use d_raft.Network.Router.{LinkConfig, Packet, Router, node_entry}
use d_raft.Network.Send.{Caller, link_of, next_id_taken}

module _ {M : Type 0} where
  -- What `Send` tells of a packet that it schedules for a time.
  abbrev pub on_its_way : ℕ → Packet M → ℕ → Sending M
  on_its_way now packet at =
      sent
        (record {
          packet_id = packet.id;
          scheduled = true;
          delivery_at = at;
          drop_reason = not_dropped;
        })
        (record {
          kind = packet_scheduled;
          packet = packet;
          at = now;
          delivery_at = at;
          reason = not_dropped;
          was_in_flight = false;
        }
          ∷ [])

module _ {P : Type 0} where
  -- A latency that is not below 0 and not above the greatest time.
  abbrev pub Timely : LinkConfig P → Type 0
  Timely link =
      (lt_int link.min_latency (pos 0) ≡ false) × (lt_int (pos max_int64) link.max_latency ≡ false)

module _ {M P D A : Type 0} (caller : Caller M P D A) where
  -- The outcomes of `Send`, where the partition permits the packet, its nodes are registered, and its link is given:
  -- it is refused, or the packet is cut off by the partition or lost, and then the simulator
  -- stays; or the delivery joins the simulator at a time now plus a latency within the link's bounds.
  pub data Fate (s : Simulator A) (permitted known : Bool) (link : LinkConfig P) (packet : Packet M)
      : Simulator A → Sending M → Type 0 where
    refused : (error : SendError) → Fate s permitted known link packet s (not_sent error)
    cut_off :
        permitted ≡ false
        → Fate s permitted known link packet s (
            sent
              (drop s.now packet drop_partition 0 false).0
              (drop s.now packet drop_partition 0 false).1)
    gone :
        permitted ≡ true
        → Fate s permitted known link packet s
            (sent (drop s.now packet drop_loss 0 false).0 (drop s.now packet drop_loss 0 false).1)
    under_way :
        {s' : Simulator A} (id latency : ℕ)
        → permitted ≡ true
        → known ≡ true
        → lt_int (pos latency) link.min_latency ≡ false
        → lt_int link.max_latency (pos latency) ≡ false
        → Placed s (s.now + latency) zero_tag (caller.delivery packet (s.now + latency)) s' id
        → Fate s permitted known link packet s' (on_its_way s.now packet (s.now + latency))

module _ {P : Type 0} where
  -- An error, or a latency within the bounds of the link.
  pub data WithinLink (link : LinkConfig P) : SendError ⊎ ℤ → Type 0 where
    failed : (error : SendError) → WithinLink link (inl error)
    within :
        (latency : ℤ)
        → lt_int latency link.min_latency ≡ false
        → lt_int link.max_latency latency ≡ false
        → WithinLink link (inr latency)

pub greatest :
    (most : ℤ) (latency : ℕ)
    → lt_int (pos max_int64) most ≡ false
    → lt_int most (pos latency) ≡ false
    → latency ≤ max_int64
greatest (pos m) latency h k = ground arith
greatest (negsuc m) latency h k = cc (k)

pub least : (low : ℤ) (k : ℕ) → lt_int low (pos 0) ≡ false → lt_int (negsuc k) low ≡ false → ⊥
least (pos m) k h e = cc (e)
least (negsuc m) k h e = cc (h)

module _ {M H P D : Type 0} where
  pub taken_kept :
      (r : Router M H P D)
      → ((next_id_taken r).partition ≡ r.partition)
        × ((next_id_taken r).event_tagger ≡ r.event_tagger)
        × ((next_id_taken r).decisions ≡ r.decisions)
        × ((from to : String) → link_of (next_id_taken r) from to ≡ link_of r from to)
  unfolding next_id_taken link_of
  taken_kept r = elim (Bool-cases (r.next_packet == max_uint64)) [
    | inl last ↦ rw last (refl, refl, refl, λ from to. refl)
    | inr more ↦ rw more (refl, refl, refl, λ from to. refl)
  ]

  -- The two nodes are registered.
  abbrev pub both_known : Router M H P D → String → String → Bool
  both_known r from to = is_some (node_entry r.handlers from) && is_some (node_entry r.handlers to)
