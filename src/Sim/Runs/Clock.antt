-- ===== src/Sim/Runs/Clock.antt =====
-- simulator.go: the event that Step runs.
use d_raft.Base.{
  ℕ, suc, ◌≤◌, ◌<◌, ◌≡◌, refl, sym, ap, ◌∙◌, subst, true, false, List, [], ◌∷◌, Option, none, some,
  is_some, is_empty, arith, ◌==◌, if◌then◌else◌, length, Run, ok, ◌>>=◌, Returns, Returns-value,
  Returns-map,
}
use d_raft.Sim.Queue.{Heap, pop}
use d_raft.Sim.Queue.Places.{rank}
use d_raft.Sim.Queue.Counts.{count, nth-count, count-Perm, count_cons_self, length-Perm}
use d_raft.Sim.Queue.Removing.{pop-IsHeap}
use d_raft.Sim.Scheduler.{EventTag, Simulator, dispatched, clear_action}
use d_raft.Sim.Scheduler.Orderly.{Held, IsOrderly}
use d_raft.Sim.Scheduler.Leaving.{
  Departed, lacking, lacking-IsOrderly, departed-Held, departed_count, departed_gone,
  clear_action-rank, clear_action-armed,
}
use d_raft.Sim.Runs.{sim_step}

not_empty : (xs : List ℕ) → 0 < length xs → is_empty xs ≡ false
not_empty [] h = absurd (omega arith)
not_empty (x ∷ xs) h = refl

module _ {Action : Type 0} where
  -- The waiting event `p` comes first, `a` is its action, and `s'` is the simulator that the action is given: in order,
  -- at the time of the event, and with every other event, each with its time and action, but without it.
  pub record Next (s : Simulator Action) (p : ℕ) (a : Action) (s' : Simulator Action) : Type 0 where
    pub held : Held s.heap p
    pub first : (q : ℕ) → Held s.heap q → rank (s.events p) ≤ rank (s.events q)
    pub its_action : (s.events p).action ≡ some a
    pub orderly : IsOrderly s'
    pub at_time : s'.now ≡ (s.events p).when
    pub one_less : suc (length s'.queue) ≡ length s.queue
    pub remaining : (q : ℕ) → count q s'.queue ≡ (if q == p then 0 else count q s.queue)
    pub kept :
        (q : ℕ)
        → (q == p) ≡ false
        → ((s'.events q).when ≡ (s.events q).when) × ((s'.events q).action ≡ (s.events q).action)

  some_of : (o : Option Action) → is_some o ≡ true → (a : Action) × (o ≡ some a)
  some_of none h = cc
  some_of (some a) h = (a, refl)

  dispatched-lacking :
      (s : Simulator Action) (h : Heap EventTag Action) (p t : ℕ)
      → (h.events p).when ≡ t
      → (h.events p).id ≡ p
      → dispatched s h p ≡ lacking s t h p
  unfolding dispatched
  dispatched-lacking s h p t e f = rw (e, f) refl

  first_event :
      (s : Simulator Action)
      → IsOrderly s
      → 0 < length s.queue
      → Returns
          (λ r.
            Departed s r.0 r.1
            × Held s.heap r.1
            × ((q : ℕ) → Held s.heap q → rank (s.events r.1) ≤ rank (s.events q)))
          (pop s.heap)
  first_event s good some_left =
      Returns-map (pop-IsHeap s.heap good.sized some_left good.ordered) λ r q. (
        (q.1, q.2, q.3, q.4),
        omega (arith, count-Perm r.1 (r.1 ∷ r.0.queue) s.queue q.2, count_cons_self r.1 r.0.queue),
        λ x held.
            let (c, inside, found) = nth-count x s.queue held in
            subst (λ (y : ℕ). rank (s.events r.1) ≤ rank (s.events y)) found (q.0 c inside),
      )

  dispatched-Next :
      (s : Simulator Action) (h : Heap EventTag Action) (p : ℕ)
      → IsOrderly s
      → Departed s h p
      → Held s.heap p
      → ((q : ℕ) → Held s.heap q → rank (s.events p) ≤ rank (s.events q))
      → (a : Action) × ((h.events p).action ≡ some a) × Next s p a (dispatched s h p)
  unfolding clear_action
  dispatched-Next s h p good left held first =
      let w = good.waits p held in
      let (a, e) = some_of (s.events p).action w.armed in
      let alike = left.2 p in
      let shape = dispatched-lacking s h p (s.events p).when (alike.1) (alike.0 ∙ w.named) in
      (
        a,
        alike.3 ∙ e,
        record {
          held = held;
          first = first;
          its_action = e;
          orderly = subst IsOrderly (sym shape) (
              lacking-IsOrderly s h p good left (s.events p).when λ q there.
                let before = (departed-Held s h p good left q there).0 in
                omega (arith, first q before, good.sized p, good.sized q));
          at_time = ap (λ (x : Simulator Action). x.now) shape;
          one_less =
              ap (λ (x : Simulator Action). suc (length x.queue)) shape
              ∙ length-Perm (p ∷ h.queue) s.queue left.1;
          remaining = λ q.
              ap (λ (x : Simulator Action). count q x.queue) shape
              ∙ ground (arith, departed_count s h p good left q, departed_gone s h p good left);
          kept = λ q other. (
            ap (λ (x : Simulator Action). (x.events q).when) shape
                ∙ (clear_action-rank h p q).1
                ∙ (left.2 q).1,
            ap (λ (x : Simulator Action). (x.events q).action) shape
                ∙ clear_action-armed h p q other
                ∙ (left.2 q).3,
          );
        },
      )

  -- Step on a simulator that is in order and has events: it calls the action of the event that comes
  -- first by time and then by identifier, on the simulator in order at the time of that event,
  -- which holds every other event, each with its time and action, and not that one.
  pub sim_step-Next :
      (run : Action → Simulator Action → Run (Simulator Action)) (s : Simulator Action)
      → IsOrderly s
      → 0 < length s.queue
      → (p : ℕ) × (a : Action) × (s' : Simulator Action) × (sim_step run s
          ≡ (run a s' >>= λ after. ok (after, true)))
        × Next s p a s'
  unfolding sim_step
  sim_step-Next run s good some_left =
      let (r, e, q) = Returns-value (first_event s good some_left) in
      let (a, f, next) = dispatched-Next s r.0 r.1 good q.0 q.1 q.2 in
      let events : is_empty s.queue ≡ false = not_empty s.queue some_left in
      (r.1, a, dispatched s r.0 r.1, rw (events, e) (rw f refl), next)
