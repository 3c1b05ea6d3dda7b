-- ===== src/Network/Send/Stages.antt =====
-- network.go: the stages of Send, where the caller decides the loss and the latency of a packet.
use d_raft.Base.{
  ℕ, ℤ, pos, negsuc, lt_int, ◌+◌, ◌≤◌, ◌≡◌, ◌⊎◌, inl, inr, refl, sym, subst, ◌∙◌, true, false, not,
  ◌&&◌, ◌||◌, Option, none, some, arith, ok, ◌>>=◌, Returns, returns, Returns-bind, Returns-if,
  Returns-option,
}
use d_raft.Sim.Scheduler.{zero_tag, Simulator, Scheduled, max_int64}
use d_raft.Sim.Scheduler.Orderly.{IsOrderly}
use d_raft.Sim.Scheduler.Joining.{Placed}
use d_raft.Sim.Scheduler.Scheduling.{Outcome, schedule_total, too_late, no_id, placed}
use d_raft.Network.Partition.{invalid_network_decision}
use d_raft.Network.Events.{Sending, not_sent, SendError, router_error, decision_failed}
use d_raft.Network.Router.{LinkConfig, Packet, Router}
use d_raft.Network.Send.{
  Caller, lost, latency_of, event_of, delivery_time, schedule_delivery, dispatch,
}
use d_raft.Network.Send.Fate.{
  on_its_way, Timely, Fate, refused, under_way, WithinLink, failed, within, greatest, least,
}

module _ {M H P D A : Type 0} (caller : Caller M P D A) where
  schedule_delivery-Placed :
      (s : Simulator A) (r : Router M H P D) (packet : Packet M) (latency : ℕ)
      → IsOrderly s
      → latency ≤ max_int64
      → r.event_tagger ≡ none
      → Returns
          (λ u.
            IsOrderly u.0
            × (((u.0 ≡ s) × ((error : SendError) × (u.1 ≡ inl error)))
                ⊎ ((id : ℕ) × (u.1 ≡ inr id)
                    × Placed s
                        (s.now + latency)
                        zero_tag
                        (caller.delivery packet (s.now + latency))
                        u.0
                        id)))
          (schedule_delivery caller s r packet (pos latency))
  unfolding schedule_delivery delivery_time event_of
  schedule_delivery-Placed s r packet latency good small untagged =
      let action = caller.delivery packet (s.now + latency) in
      rw untagged (
        Returns-bind {Good = λ q. IsOrderly q.0 × Outcome s (pos latency) (some action) q}
          (schedule_total s (pos latency) (some action) good (ground arith))
          λ q o. returns (o.0, answered action q o.1))
    where
      answered :
          (action : A) (q : Simulator A × Scheduled)
          → Outcome s (pos latency) (some action) q
          → ((q.0 ≡ s) × ((error : SendError) × (event_of q.1 ≡ inl error)))
            ⊎ ((id : ℕ) × (event_of q.1 ≡ inr id)
                × Placed s (s.now + latency) zero_tag action q.0 id)
      answered action q (too_late late) = inl (refl, (_, refl))
      answered action q (no_id fits spent) = inl (refl, (_, refl))
      answered action q (placed fits open_ids at) = inr (_, refl, at)

  dispatch-Fate :
      (s : Simulator A) (r : Router M H P D) (packet : Packet M) (link : LinkConfig P) (latency : ℕ)
      → IsOrderly s
      → latency ≤ max_int64
      → r.event_tagger ≡ none
      → lt_int (pos latency) link.min_latency ≡ false
      → lt_int link.max_latency (pos latency) ≡ false
      → Returns
          (λ t. IsOrderly t.0 × Fate caller s true true link packet t.0 t.2)
          (dispatch caller s r packet (inr (pos latency)))
  unfolding dispatch delivery_time
  dispatch-Fate s r packet link latency good small untagged low high =
      Returns-bind (schedule_delivery-Placed s r packet latency good small untagged)
        λ u q. returns (q.0, told u q.1)
    where
      told :
          (u : Simulator A × (SendError ⊎ ℕ))
          → ((u.0 ≡ s) × ((error : SendError) × (u.1 ≡ inl error)))
            ⊎ ((id : ℕ) × (u.1 ≡ inr id)
                × Placed s
                    (s.now + latency)
                    zero_tag
                    (caller.delivery packet (s.now + latency))
                    u.0
                    id)
          → Fate caller s true true link packet u.0 (elim u.1 as (λ x. Sending M) [
            | inl error ↦ not_sent error
            | inr id ↦ on_its_way u.0.now packet (u.0.now + latency)
          ])
      told u (inl (same, (error, e))) = rw (same, e) (refused error)
      told u (inr (id, e, at)) = rw e (
          subst
            (λ (n : ℕ). Fate caller s true true link packet u.0 (on_its_way n packet (n + latency)))
            (sym at.clock_kept) (under_way id latency refl refl low high at))

  -- The router's decision source still decides, and it has the same tagger.
  abbrev pub Decides : Router M H P D → Router M H P D → Type 0
  Decides r r' = (r'.event_tagger ≡ r.event_tagger) × ((d : D) × (r'.decisions ≡ some d))

  pub lost-Decides :
      (r : Router M H P D) (packet : Packet M) (link : LinkConfig P) (d : D)
      → r.decisions ≡ some d
      → Returns (λ q. Decides r q.0) (lost caller r packet link)
  unfolding lost
  lost-Decides r packet link d decided =
      Returns-option r.decisions (λ undecided. cc (decided, undecided))
        λ source e.
          Returns-option (caller.drop_decision source packet link).1
            (λ failed. returns (refl, (_, refl)))
            λ b answer.
              Returns-if
                ((b && caller.floats.is_zero link.loss_probability)
                  || (not b && caller.floats.is_one link.loss_probability))
                (λ conflict. returns (refl, (_, refl))) λ fine. returns (refl, (_, refl))

  abbrev pub RoutedAs :
      Simulator A
      → LinkConfig P
      → Packet M
      → Option (Simulator A × Router M H P D × Sending M)
      → Type 0
  RoutedAs s link packet o =
      (t : Simulator A × Router M H P D × Sending M) × (o ≡ some t)
      × IsOrderly t.0
      × Fate caller s true true link packet t.0 t.2

  latency_of-WithinLink :
      (fuel : ℕ) (r : Router M H P D) (packet : Packet M) (link : LinkConfig P) (d : D)
      → r.decisions ≡ some d
      → Returns
          (λ o.
            (q : Router M H P D × (SendError ⊎ ℤ)) × (o ≡ some q)
            × (q.0.event_tagger ≡ r.event_tagger)
            × WithinLink link q.1)
          (latency_of caller fuel r packet link)
  unfolding latency_of
  latency_of-WithinLink fuel r packet link d decided =
      Returns-option r.decisions (λ undecided. cc (decided, undecided))
        λ source e.
          Returns-option (caller.latency_decision source packet link).1
            (λ no_answer. returns (_, refl, refl, failed decision_failed))
            λ latency answer.
              Returns-if (lt_int latency link.min_latency || lt_int link.max_latency latency)
                (λ outside. returns (_, refl, refl, failed (router_error invalid_network_decision)))
                λ inside. returns (_, refl, refl, within latency (ground arith) (ground arith))

  arriving-Fate :
      (s : Simulator A) (r : Router M H P D) (packet : Packet M) (link : LinkConfig P)
      (answer : SendError ⊎ ℤ)
      → IsOrderly s
      → Timely link
      → r.event_tagger ≡ none
      → WithinLink link answer
      → Returns
          (λ t. IsOrderly t.0 × Fate caller s true true link packet t.0 t.2)
          (dispatch caller s r packet answer)
  unfolding dispatch
  arriving-Fate s r packet link _ good timely untagged (failed error) =
      returns (good, refused error)
  arriving-Fate s r packet link _ good timely untagged (within (pos latency) low high) =
      dispatch-Fate s r packet link latency good (greatest link.max_latency latency timely.1 high)
        untagged low high
  arriving-Fate s r packet link _ good timely untagged (within (negsuc k) low high) =
      absurd (least link.min_latency k timely.0 low)

  pub routed-Fate :
      (fuel : ℕ) (s : Simulator A) (r : Router M H P D) (packet : Packet M) (link : LinkConfig P)
      (d : D)
      → IsOrderly s
      → Timely link
      → r.event_tagger ≡ none
      → r.decisions ≡ some d
      → Returns (RoutedAs s link packet) (
          latency_of caller fuel r packet link >>= λ drawn. elim drawn [
            | none ↦ ok none
            | some q ↦ dispatch caller s q.0 packet q.1 >>= λ t. ok (some t)
          ])
  routed-Fate fuel s r packet link d good timely untagged decided =
      Returns-bind (latency_of-WithinLink fuel r packet link d decided) λ o q.
        let (u, e, same, answer) = q in
        rw e (
          Returns-bind (arriving-Fate s u.0 packet link u.1 good timely (same ∙ untagged) answer)
            λ t f. returns (t, refl, f.0, f.1))
