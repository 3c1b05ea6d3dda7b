-- ===== src/Sim/Scheduler/Joining.antt =====
-- simulator.go: an event joins the heap of a simulator in order.
use mathlib.Core.List.{Perm}
use d_raft.Base.{
  ℕ, ◌+◌, ◌≤◌, ◌<◌, ◌≡◌, ◌⊎◌, refl, ◌∙◌, subst, inl, inr, Bool-cases, true, false, ◌||◌, ◌∷◌, some,
  arith, ◌==◌, if◌then◌else◌, u64, max_uint64,
}
use d_raft.Sim.Queue.{ScheduledEvent, Heap, write_event}
use d_raft.Sim.Queue.Places.{nth, Sized, Alike}
use d_raft.Sim.Queue.Sift.{IsHeap}
use d_raft.Sim.Queue.Indexes.{Indexed}
use d_raft.Sim.Queue.Counts.{count, count_cons, count-nth, count-Perm}
use d_raft.Sim.Queue.Pushing.{Fresh}
use d_raft.Sim.Scheduler.{EventTag, Simulator, is_pending}
use d_raft.Sim.Scheduler.Orderly.{Held, Waits, IsOrderly}

written_at :
    {Tag Action : Type 0} (events : ℕ → ScheduledEvent Tag Action) (p : ℕ)
    (e : ScheduledEvent Tag Action)
    → write_event events p e p ≡ e
unfolding write_event
written_at events p e = let same : (p == p) ≡ true = ground arith in rw same refl

written_beside :
    {Tag Action : Type 0} (events : ℕ → ScheduledEvent Tag Action) (p q : ℕ)
    (e : ScheduledEvent Tag Action)
    → (q == p) ≡ false
    → write_event events p e q ≡ events q
unfolding write_event
written_beside events p q e other = rw other refl

module _ {Action : Type 0} where
  -- The identifier that the next event gets.
  abbrev pub fresh_id : Simulator Action → ℕ
  fresh_id s = if s.next_id == 0 then 1 else s.next_id

  -- An event of the time, the tag and the action has joined the heap under the identifier.
  pub record Placed (s : Simulator Action) (when : ℕ) (tag : EventTag) (action : Action)
      (s' : Simulator Action) (id : ℕ) : Type 0 where
    pub when_placed : (s'.events id).when ≡ when
    pub tag_placed : (s'.events id).tag ≡ tag
    pub action_placed : (s'.events id).action ≡ some action
    pub joined : (p : ℕ) → count p s'.queue ≡ count p (id ∷ s.queue)
    pub new_id : count id s.queue ≡ 0
    pub clock_kept : s'.now ≡ s.now

  pub fresh_id-Fresh :
      (s : Simulator Action) → IsOrderly s → s.exhausted ≡ false → Fresh s.heap (fresh_id s)
  fresh_id-Fresh s good open_ids c inside =
      let held = good.waits (nth s.queue c) (count-nth s.queue c inside) in
      let below = held.issued_before open_ids in ground arith

  fresh_id_new :
      (s : Simulator Action) → IsOrderly s → s.exhausted ≡ false → count (fresh_id s) s.queue ≡ 0
  fresh_id_new s good open_ids =
      let out : ¬ Held s.heap (fresh_id s) =
        λ held. let below = (good.waits (fresh_id s) held).issued_before open_ids in ground arith in
      omega (arith, out)

  abbrev pub new_event : Simulator Action → ℕ → EventTag → Action → ScheduledEvent EventTag Action
  new_event s when tag action = record {
    id = fresh_id s;
    when = when;
    tag = tag;
    action = some action;
    index = some 0;
  }

  -- The simulator with the event in its heap `h`.
  abbrev pub joined_by : Simulator Action → Heap EventTag Action → Simulator Action
  joined_by s h = record {
    now = s.now;
    heap = h;
    pending = fresh_id s ∷ s.pending;
    next_id = if fresh_id s == max_uint64 then fresh_id s else fresh_id s + 1;
    exhausted = s.exhausted || fresh_id s == max_uint64;
  }

  pub fresh_id_small : (s : Simulator Action) → IsOrderly s → fresh_id s < u64
  fresh_id_small s good = ground (arith, good.in_range)

  -- What `push` leaves of the new event, as the simulator sees it.
  module _ (s : Simulator Action) (when : ℕ) (tag : EventTag) (action : Action)
      (h : Heap EventTag Action) (good : IsOrderly s) (later : s.now ≤ when)
      (open_ids : s.exhausted ≡ false) (perm : Perm h.queue (fresh_id s ∷ s.queue))
      (alike : Alike
        (write_event s.events (fresh_id s) (new_event s when tag action))
        h.events) where
    new-Waits : Waits (joined_by s h) (fresh_id s)
    unfolding is_pending
    new-Waits =
        let e = new_event s when tag action in
        let at = alike (fresh_id s) in
        let at' = rw (written_at s.events (fresh_id s) e) at at in
        record {
          named = at'.0;
          ahead = omega (arith, at'.1, later);
          armed = rw (at'.3) refl;
          issued_before = λ open_after. ground arith;
          mapped = ground arith;
        }

    old-Waits : (p : ℕ) → (p == fresh_id s) ≡ false → Held s.heap p → Waits (joined_by s h) p
    unfolding is_pending
    old-Waits p other held =
        let e = new_event s when tag action in
        let before = good.waits p held in
        let at = alike p in
        let at' = rw (written_beside s.events (fresh_id s) p e other) at at in
        record {
          named = at'.0 ∙ before.named;
          ahead = omega (arith, at'.1, before.ahead);
          armed = rw (at'.3) before.armed;
          issued_before = λ open_after. ground (arith, before.issued_before open_ids);
          mapped = ground (arith, before.mapped);
        }

    joined_count : (p : ℕ) → count p h.queue ≡ count p (fresh_id s ∷ s.queue)
    joined_count p = count-Perm p h.queue (fresh_id s ∷ s.queue) perm

    joined-Held :
        (p : ℕ)
        → Held h p
        → ((p == fresh_id s) ≡ true) ⊎ (((p == fresh_id s) ≡ false) × Held s.heap p)
    joined-Held p held =
        let n = joined_count p in
        let split = count_cons p (fresh_id s) s.queue in
        elim (Bool-cases (p == fresh_id s)) [
          | inl same ↦ inl same
          | inr other ↦ inr (other, ground (arith, held, n, split))
        ]

    joined-Waits : (p : ℕ) → Held h p → Waits (joined_by s h) p
    joined-Waits p held = elim (joined-Held p held) [
      | inl same ↦
          let e : fresh_id s ≡ p = ground arith in subst (Waits (joined_by s h)) e new-Waits
      | inr (other, old) ↦ old-Waits p other old
    ]

    joined_listed : (p : ℕ) → is_pending (fresh_id s ∷ s.pending) p ≡ true → Held h p
    unfolding is_pending
    joined_listed p listed =
        ground (arith, joined_count p, count_cons p (fresh_id s) s.queue, good.listed p)

    joined-Sized : Sized h.events
    joined-Sized p = elim (Bool-cases (p == fresh_id s)) [
      | inl same ↦
          let e : fresh_id s ≡ p = ground arith in
          subst (λ q. (h.events q).id < u64) e
            (omega (arith, new-Waits.named, fresh_id_small s good))
      | inr other ↦
          let at = alike p in
          let at' =
            rw (written_beside s.events (fresh_id s) p (new_event s when tag action) other) at at in
          omega (arith, at'.0, good.sized p)
    ]

    pub joined-IsOrderly : IsHeap h → (Indexed s.heap → Indexed h) → IsOrderly (joined_by s h)
    joined-IsOrderly ordered indexed = record {
      ordered = ordered;
      sized = joined-Sized;
      indexed = indexed good.indexed;
      waits = joined-Waits;
      listed = joined_listed;
      in_range = ground (arith, fresh_id_small s good, good.in_range);
    }

    pub joined-Placed : Placed s when tag action (joined_by s h) (fresh_id s)
    joined-Placed =
        let at = alike (fresh_id s) in
        let at' = rw (written_at s.events (fresh_id s) (new_event s when tag action)) at at in
        record {
          when_placed = at'.1;
          tag_placed = at'.2;
          action_placed = at'.3;
          joined = joined_count;
          new_id = fresh_id_new s good open_ids;
          clock_kept = refl;
        }
