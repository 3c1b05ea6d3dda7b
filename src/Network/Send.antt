-- ===== src/Network/Send.antt =====
-- network.go: Send and the delivery of a packet.
pub mod Fate
pub mod Stages
pub mod Outcomes
use d_raft.Base.{
  ℕ, ℤ, pos, negsuc, lt_int, ◌+◌, ◌-◌, ◌⊎◌, inl, inr, Bool, true, false, not, ◌&&◌, ◌||◌, Option,
  none, some, is_some, List, [], ◌∷◌, String, if◌then◌else◌, ◌==◌, max_uint64, Run, ok, ◌>>=◌,
}
use d_raft.Sim.Random.{Rand, Floats, chance, duration}
use d_raft.Sim.Scheduler.{
  EventTag, Simulator, SimError, Scheduled, issued, unscheduled, schedule, schedule_tagged,
}
use d_raft.Network.Partition.{
  NetworkError, unknown_source, unknown_target, packet_exhausted, invalid_network_decision, allows,
}
use d_raft.Network.Events.{
  DropReason, not_dropped, drop_loss, drop_partition, drop_target_unavailable, NetworkEventKind,
  packet_scheduled, packet_delivered, packet_dropped, NetworkEvent, SendResult, SendError,
  router_error, decision_failed, tag_failed, simulator_error, Sending, sent, not_sent, drop,
}
use d_raft.Network.Router.{LinkConfig, Packet, Router, node_entry, route_entry}

-- The code that the caller gives: a decision source (an answer of `none` is its error), the comparisons
-- with a probability, `json.Valid`, and the action that the simulator is given for a delivery.
pub record Caller (M P D A : Type 0) : Type 0 where
  pub floats : Floats P
  pub drop_decision : D → Packet M → LinkConfig P → D × Option Bool
  pub latency_decision : D → Packet M → LinkConfig P → D × Option ℤ
  pub valid_json : List ℕ → Bool
  pub delivery : Packet M → ℕ → A

-- `r.sim.Now() + latency`; Schedule refuses a latency below 0.
delivery_time : ℕ → ℤ → ℕ
delivery_time now (pos latency) = now + latency
delivery_time now (negsuc k) = now - (k + 1)

pub event_of : Scheduled → SendError ⊎ ℕ
event_of (issued id) = inr id
event_of (unscheduled error) = inl (simulator_error error)

module _ {M H P D : Type 0} where
  with_latency : Router M H P D → Option (Rand × ℕ) → Option (Router M H P D × (SendError ⊎ ℤ))
  with_latency r none = none
  with_latency r (some (rng, latency)) = some (record r { rng = rng }, inr (pos latency))

  -- The link's own configuration, or the default.
  unfoldable pub link_of : Router M H P D → String → String → LinkConfig P
  unfolding route_entry
  link_of r from to = elim (route_entry r.links from to) [
    | none ↦ r.default_link
    | some config ↦ config
  ]

  -- The identifier of a packet is used up.
  pub next_id_taken : Router M H P D → Router M H P D
  next_id_taken r =
      if r.next_packet == max_uint64
      then record r { exhausted = true }
      else record r { next_packet = r.next_packet + 1 }

  -- The packet of a message, which the caller's function copies.
  pub packet_of : {A : Type 0} → Simulator A → Router M H P D → String → String → M → Packet M
  packet_of s r from to message = record {
    id = r.next_packet;
    from = from;
    to = to;
    message = elim r.clone [ none ↦ message | some clone ↦ clone message ];
    sent_at = s.now;
  }

module _ {M H P D A : Type 0} (caller : Caller M P D A) where
  -- The loss of a packet on its link: the random draw, or the decision of the caller.
  pub lost : Router M H P D → Packet M → LinkConfig P → Run (Router M H P D × (SendError ⊎ Bool))
  lost r packet link =
      let draw = do
        (rng, b) ← chance caller.floats link.loss_probability r.rng
        ok (record r { rng = rng }, inr b)
      in elim r.decisions [
        | none ↦ draw
        | some d ↦
            let (d', answer) = caller.drop_decision d packet link in
            let r' = record r { decisions = some d' } in
            elim answer [
              | none ↦ ok (r', inl decision_failed)
              | some b ↦
                  if (b && caller.floats.is_zero link.loss_probability)
                    || (not b && caller.floats.is_one link.loss_probability)
                  then ok (r', inl (router_error invalid_network_decision))
                  else ok (r', inr b)
            ]
      ]

  -- The latency of a packet on its link. `none` is a draw that is not accepted within the fuel.
  pub latency_of :
      ℕ → Router M H P D → Packet M → LinkConfig P → Run (Option (Router M H P D × (SendError ⊎ ℤ)))
  unfolding with_latency
  latency_of fuel r packet link =
      let draw = do
        drawn ← duration fuel link.min_latency link.max_latency r.rng
        ok (with_latency r drawn)
      in elim r.decisions [
        | none ↦ draw
        | some d ↦
            let (d', answer) = caller.latency_decision d packet link in
            let r' = record r { decisions = some d' } in
            elim answer [
              | none ↦ ok (some (r', inl decision_failed))
              | some latency ↦
                  if lt_int latency link.min_latency || lt_int link.max_latency latency
                  then ok (some (r', inl (router_error invalid_network_decision)))
                  else ok (some (r', inr latency))
            ]
      ]

  -- The call of Schedule, or of ScheduleTagged where there is a tagger.
  pub schedule_delivery :
      Simulator A → Router M H P D → Packet M → ℤ → Run (Simulator A × (SendError ⊎ ℕ))
  unfolding event_of delivery_time
  schedule_delivery s r packet latency =
      let action = some (caller.delivery packet (delivery_time s.now latency)) in
      elim r.event_tagger [
        | none ↦ schedule s latency action >>= λ q. ok (q.0, event_of q.1)
        | some tagger ↦ elim (tagger packet) [
          | none ↦ ok (s, inl tag_failed)
          | some tag ↦
              schedule_tagged caller.valid_json s latency tag action >>= λ q. ok (q.0, event_of q.1)
        ]
      ]

  -- The end of `Send`, with the latency.
  pub dispatch :
      Simulator A
      → Router M H P D
      → Packet M
      → SendError ⊎ ℤ
      → Run (Simulator A × Router M H P D × Sending M)
  unfolding schedule_delivery delivery_time
  dispatch s r packet (inl error) = ok (s, r, not_sent error)
  dispatch s r packet (inr latency) = do
    (s', answer) ← schedule_delivery s r packet latency
    let at = delivery_time s'.now latency
    ok (
      s',
      r,
      elim answer as (λ x. Sending M) [
        | inl error ↦ not_sent error
        | inr id ↦
            sent
              (record {
                packet_id = packet.id;
                scheduled = true;
                delivery_at = at;
                drop_reason = not_dropped;
              })
              (record {
                kind = packet_scheduled;
                packet = packet;
                at = s'.now;
                delivery_at = at;
                reason = not_dropped;
                was_in_flight = false;
              }
                ∷ [])
      ],
    )

  -- The rest of `Send` for a packet that the partition permits.
  pub route :
      ℕ
      → Simulator A
      → Router M H P D
      → Packet M
      → Run (Option (Simulator A × Router M H P D × Sending M))
  unfolding lost latency_of dispatch drop link_of
  route fuel s r packet =
      let link = link_of r packet.from packet.to in
      do
        (r', dropped) ← lost r packet link
        elim dropped [
          | inl error ↦ ok (some (s, r', not_sent error))
          | inr true ↦
              let (result, events) = drop s.now packet drop_loss 0 false in
              ok (some (s, r', sent result events))
          | inr false ↦ do
            drawn ← latency_of fuel r' packet link
            elim drawn [ none ↦ ok none | some q ↦ dispatch s q.0 packet q.1 >>= λ t. ok (some t) ]
        ]

  -- `Send`. `none` is a draw of the latency that is not accepted within the fuel.
  pub send :
      ℕ
      → Simulator A
      → Router M H P D
      → String
      → String
      → M
      → Run (Option (Simulator A × Router M H P D × Sending M))
  unfolding route next_id_taken packet_of drop
  send fuel s r from to message =
      let packet = packet_of s r from to message in
      let r' = next_id_taken r in
      let refuse : NetworkError → Run (Option (Simulator A × Router M H P D × Sending M)) =
        λ error. ok (some (s, r, not_sent (router_error error))) in
      let (result, events) = drop s.now packet drop_partition 0 false in
      if not (is_some (node_entry r.handlers from))
      then refuse unknown_source
      else if not (is_some (node_entry r.handlers to))
      then refuse unknown_target
      else if r.exhausted
      then refuse packet_exhausted
      else if not (allows r'.partition from to)
      then ok (some (s, r', sent result events))
      else route fuel s r' packet

  -- `deliver`: the events, and the handler that is called with the packet.
  unfoldable deliver : ℕ → Router M H P D → Packet M → ℕ → List (NetworkEvent M) × Option H
  unfolding drop
  deliver now r packet delivery_at =
      let cut = drop now packet drop_partition delivery_at true in
      let gone = drop now packet drop_target_unavailable delivery_at true in
      if not (allows r.partition packet.from packet.to)
      then (cut.1, none)
      else elim (node_entry r.handlers packet.to) [
        | none ↦ (gone.1, none)
        | some handler ↦ (
          record {
            kind = packet_delivered;
            packet = packet;
            at = now;
            delivery_at = delivery_at;
            reason = not_dropped;
            was_in_flight = false;
          }
              ∷ [],
          some handler,
        )
      ]
