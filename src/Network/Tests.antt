-- ===== src/Network/Tests.antt =====
-- The network: runs on concrete values, and the theorems at work on them.
use d_raft.Base.{
  ℕ, pos, ◌≡◌, refl, true, false, none, some, List, [], ◌∷◌, String, ◌==◌, arith, Returns, ◌+◌,
}
use d_raft.Sim.Queue.{ScheduledEvent}
use d_raft.Sim.Random.{new_rand}
use d_raft.Sim.Scheduler.{EventTag, zero_tag, Simulator, new_simulator}
use d_raft.Sim.Scheduler.Orderly.{IsOrderly, new_simulator-IsOrderly}
use d_raft.Network.Partition.{PartitionMatrix, partition_made, new_partitions, allows}
use d_raft.Network.Partition.Groups.{same_group, allows-new_partitions}
use d_raft.Network.Events.{Sending}
use d_raft.Network.Router.{LinkConfig, Router}
use d_raft.Network.Send.{Caller, link_of, packet_of, send}
use d_raft.Network.Send.Fate.{Fate, both_known}
use d_raft.Network.Send.Outcomes.{send-Fate}

abbrev two_groups : List (List String)
two_groups = ("a" ∷ "b" ∷ []) ∷ ("c" ∷ []) ∷ []

abbrev split_matrix : PartitionMatrix
split_matrix = record {
  nodes = "a" ∷ "b" ∷ "c" ∷ [];
  allowed = ("c", "c") ∷ ("a", "a") ∷ ("a", "b") ∷ ("b", "a") ∷ ("b", "b") ∷ [];
}

split_made : new_partitions two_groups ≡ partition_made split_matrix
unfolding new_partitions
split_made = refl

allows-new_partitions_example :
    (allows (some split_matrix) "a" "c" ≡ same_group two_groups "a" "c")
    × (allows (some split_matrix) "a" "c" ≡ allows (some split_matrix) "c" "a")
allows-new_partitions_example = allows-new_partitions two_groups split_matrix "a" "c" split_made

-- A caller that loses no packet and takes 7 for every latency; a probability is a number of hundredths.
abbrev steady : Caller ℕ ℕ ℕ ℕ
steady = record {
  floats = record {
    in_unit = λ p. true;
    is_zero = λ p. p == 0;
    is_one = λ p. p == 100;
    above = λ p x. false;
  };
  drop_decision = λ d packet link. (d + 1, some false);
  latency_decision = λ d packet link. (d + 1, some (pos 7));
  valid_json = λ text. true;
  delivery = λ packet at. at;
}

abbrev quick : LinkConfig ℕ
quick = record { min_latency = pos 5; max_latency = pos 9; loss_probability = 10 }

abbrev pair : Router ℕ ℕ ℕ ℕ
pair = record {
  rng = new_rand 0;
  default_link = quick;
  links = [];
  handlers = ("a", 1) ∷ ("b", 2) ∷ [];
  partition = some split_matrix;
  clone = none;
  next_packet = 1;
  exhausted = false;
  decisions = some 0;
  event_tagger = none;
}

abbrev nothing : ℕ → ScheduledEvent EventTag ℕ
nothing p = record { id = 0; when = 0; tag = zero_tag; action = none; index = none }

idle_start : Simulator ℕ
unfolding new_simulator
idle_start = new_simulator nothing

idle_start-IsOrderly : IsOrderly idle_start
unfolding idle_start
idle_start-IsOrderly = new_simulator-IsOrderly nothing (λ p. omega arith)

send-Fate_example :
    Returns
      (λ o.
        (t : Simulator ℕ × Router ℕ ℕ ℕ ℕ × Sending ℕ) × (o ≡ some t)
        × IsOrderly t.0
        × Fate steady idle_start
            (allows (some split_matrix) "a" "b")
            (both_known pair "a" "b")
            (link_of pair "a" "b")
            (packet_of idle_start pair "a" "b" 33)
            t.0
            t.2)
      (send steady 0 idle_start pair "a" "b" 33)
unfolding link_of
send-Fate_example =
    send-Fate steady 0 idle_start pair "a" "b" 33 0 idle_start-IsOrderly (refl, refl) refl refl
