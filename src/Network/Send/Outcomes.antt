-- ===== src/Network/Send/Outcomes.antt =====
-- network.go: what becomes of a packet where the caller decides its loss and its latency.
use d_raft.Base.{
  ℕ, ◌≡◌, ◌⊎◌, inl, inr, refl, ap, ◌∙◌, Bool, true, false, not, none, some, is_some, arith, String,
  ok, ◌>>=◌, Returns, returns, Returns-bind, Returns-if, Returns-map,
}
use d_raft.Sim.Scheduler.{Simulator}
use d_raft.Sim.Scheduler.Orderly.{IsOrderly}
use d_raft.Network.Partition.{allows}
use d_raft.Network.Events.{drop_loss, Sending, sent, not_sent, SendError, drop}
use d_raft.Network.Router.{LinkConfig, Packet, Router, node_entry}
use d_raft.Network.Send.{
  Caller, latency_of, dispatch, link_of, route, next_id_taken, packet_of, send,
}
use d_raft.Network.Send.Fate.{Timely, Fate, refused, cut_off, gone, taken_kept, both_known}
use d_raft.Network.Send.Stages.{lost-Decides, RoutedAs, routed-Fate}

module _ {M H P D A : Type 0} (caller : Caller M P D A) where
  after_loss-Fate :
      (fuel : ℕ) (s : Simulator A) (r : Router M H P D) (packet : Packet M) (link : LinkConfig P)
      (d : D) (dropped : SendError ⊎ Bool)
      → IsOrderly s
      → Timely link
      → r.event_tagger ≡ none
      → r.decisions ≡ some d
      → Returns (RoutedAs caller s link packet) (elim dropped [
        | inl error ↦ ok (some (s, r, not_sent error))
        | inr true ↦ ok (
            some (
              s,
              r,
              sent (drop s.now packet drop_loss 0 false).0 (drop s.now packet drop_loss 0 false).1,
            ))
        | inr false ↦ latency_of caller fuel r packet link >>= λ drawn. elim drawn [
          | none ↦ ok none
          | some q ↦ dispatch caller s q.0 packet q.1 >>= λ t. ok (some t)
        ]
      ])
  after_loss-Fate fuel s r packet link d (inl error) good timely untagged decided =
      returns (_, refl, good, refused error)
  after_loss-Fate fuel s r packet link d (inr true) good timely untagged decided =
      returns (_, refl, good, gone refl)
  after_loss-Fate fuel s r packet link d (inr false) good timely untagged decided =
      routed-Fate caller fuel s r packet link d good timely untagged decided

  route-Fate :
      (fuel : ℕ) (s : Simulator A) (r : Router M H P D) (packet : Packet M) (d : D)
      → IsOrderly s
      → Timely (link_of r packet.from packet.to)
      → r.event_tagger ≡ none
      → r.decisions ≡ some d
      → Returns
          (RoutedAs caller s (link_of r packet.from packet.to) packet)
          (route caller fuel s r packet)
  unfolding route
  route-Fate fuel s r packet d good timely untagged decided =
      let link = link_of r packet.from packet.to in
      Returns-bind (lost-Decides caller r packet link d decided) λ q kept.
        let (same, (d', still)) = kept in
        after_loss-Fate fuel s q.0 packet link d' q.1 good timely (same ∙ untagged) still

  -- Send returns where a caller decides losses and latencies, no tagger is set, the simulator is in order
  -- and the link's bounds are times: it keeps the simulator in order, and either it is
  -- refused, or the partition cuts the packet off, or it is lost, with the simulator unchanged, or the
  -- two nodes are registered, the partition permits the packet and its delivery joins the simulator, at the time now plus a latency
  -- within the bounds of the link.
  pub send-Fate :
      (fuel : ℕ) (s : Simulator A) (r : Router M H P D) (from to : String) (message : M) (d : D)
      → IsOrderly s
      → Timely (link_of r from to)
      → r.event_tagger ≡ none
      → r.decisions ≡ some d
      → Returns
          (λ o.
            (t : Simulator A × Router M H P D × Sending M) × (o ≡ some t)
            × IsOrderly t.0
            × Fate caller s
                (allows r.partition from to)
                (both_known r from to)
                (link_of r from to)
                (packet_of s r from to message)
                t.0
                t.2)
          (send caller fuel s r from to message)
  unfolding send packet_of
  send-Fate fuel s r from to message d good timely untagged decided =
      let kept = taken_kept r in
      let same : allows (next_id_taken r).partition from to ≡ allows r.partition from to =
        ap (λ m. allows m from to) kept.0 in
      Returns-if (not (is_some (node_entry r.handlers from)))
        (λ unknown. returns (_, refl, good, refused _))
        λ from_known.
          Returns-if (not (is_some (node_entry r.handlers to)))
            (λ unknown. returns (_, refl, good, refused _))
            λ to_known.
              Returns-if r.exhausted (λ spent. returns (_, refl, good, refused _))
                λ open_ids.
                  Returns-if (not (allows (next_id_taken r).partition from to))
                    (λ cut. returns (_, refl, good, cut_off (ground arith)))
                    λ permitted.
                      let granted : allows r.partition from to ≡ true = ground arith in
                      let known : both_known r from to ≡ true = ground arith in
                      Returns-map
                        (route-Fate fuel s (next_id_taken r) (packet_of s r from to message) d good
                          (rw (kept.3 from to) timely) (kept.1 ∙ untagged) (kept.2 ∙ decided))
                        λ o q.
                          let (t, e, good', fate) = q in
                          (t, e, good', rw (granted, known) (rw (kept.3 from to) at fate))
