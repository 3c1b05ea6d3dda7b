-- ===== src/Sim/Scheduler/Leaving.antt =====
-- simulator.go: an event leaves the heap, because it is cancelled or because it is next.
use mathlib.Core.List.{Perm}
use d_raft.Base.{
  ℕ, suc, ◌≤◌, ◌<◌, ◌≡◌, refl, sym, ap, ◌∙◌, subst, inl, inr, Bool, Bool-cases, true, false, not,
  List, ◌∷◌, some, arith, ◌==◌, if◌then◌else◌, length, or_panic, ok, ◌>>=◌, Returns, returns,
  Returns-bind, Returns-if,
}
use d_raft.Sim.Queue.{Heap, write_event, remove}
use d_raft.Sim.Queue.Places.{nth, Alike, rank, key}
use d_raft.Sim.Queue.Sift.{IsHeap, parent}
use d_raft.Sim.Queue.Indexes.{Indexed}
use d_raft.Sim.Queue.Counts.{count, count_cons, nth-count, count-Perm, count-Indexed}
use d_raft.Sim.Queue.Removing.{remove-IsHeap}
use d_raft.Sim.Scheduler.{EventTag, Simulator, delete, is_pending, clear_action, cancel}
use d_raft.Sim.Scheduler.Orderly.{Held, Waits, IsOrderly, is_pending-delete}

module _ {Action : Type 0} where
  pub clear_action-rank :
      (h : Heap EventTag Action) (p q : ℕ)
      → (((clear_action h p).events q).id ≡ (h.events q).id)
        × (((clear_action h p).events q).when ≡ (h.events q).when)
        × (((clear_action h p).events q).index ≡ (h.events q).index)
  unfolding clear_action write_event
  clear_action-rank h p q = elim (Bool-cases (q == p)) [
    | inl same ↦ let e : q ≡ p = ground arith in rw same (cc e, cc e, cc e)
    | inr other ↦ rw other (refl, refl, refl)
  ]

  clear_action-queue : (h : Heap EventTag Action) (p : ℕ) → (clear_action h p).queue ≡ h.queue
  unfolding clear_action
  clear_action-queue h p = refl

  pub clear_action-armed :
      (h : Heap EventTag Action) (p q : ℕ)
      → (q == p) ≡ false
      → ((clear_action h p).events q).action ≡ (h.events q).action
  unfolding clear_action write_event
  clear_action-armed h p q other = rw other refl

  -- The simulator at the time `t` without the event `p`, whose departure left the heap `h`.
  abbrev pub lacking : Simulator Action → ℕ → Heap EventTag Action → ℕ → Simulator Action
  lacking s t h p = record s { now = t; heap = clear_action h p; pending = delete s.pending p }

  -- The heap `h` is the one of `s` less the pointer `p`.
  abbrev pub Departed : Simulator Action → Heap EventTag Action → ℕ → Type 0
  Departed s h p =
      IsHeap h × Perm (p ∷ h.queue) s.queue × Alike s.events h.events × (Indexed s.heap → Indexed h)

  module _ (s : Simulator Action) (h : Heap EventTag Action) (p : ℕ) (good : IsOrderly s)
      (left : Departed s h p) where
    pub departed_count :
        (q : ℕ) → count q s.queue ≡ (if p == q then suc (count q h.queue) else count q h.queue)
    departed_count q = sym (count-Perm q (p ∷ h.queue) s.queue left.1) ∙ count_cons q p h.queue

    pub departed_gone : count p h.queue ≡ 0
    departed_gone = ground (arith, departed_count p, count-Indexed s.heap p good.indexed)

    pub departed-Held : (q : ℕ) → Held h q → Held s.heap q × ((q == p) ≡ false)
    departed-Held q held = (ground (arith, departed_count q), ground (arith, departed_gone))

    lacking-Waits :
        (t : ℕ)
        → ((q : ℕ) → Held h q → t ≤ (s.events q).when)
        → (q : ℕ) → Held h q
        → Waits (lacking s t h p) q
    lacking-Waits t due q held =
        let (before, other) = departed-Held q held in
        let kept = clear_action-rank h p q in
        let w = good.waits q before in
        let a = left.2 q in
        record {
          named = kept.0 ∙ a.0 ∙ w.named;
          ahead = omega (arith, kept.1, a.1, due q held);
          armed = rw (clear_action-armed h p q other, a.3) w.armed;
          issued_before = w.issued_before;
          mapped = ground (arith, is_pending-delete s.pending p q, w.mapped);
        }

    clear_action-key :
        (c d : ℕ) → key h c ≤ key h d → key (clear_action h p) c ≤ key (clear_action h p) d
    clear_action-key c d below =
        let at = λ (b : ℕ). clear_action-rank h p (nth h.queue b) in
        let same = λ (b : ℕ).
          ap (λ (xs : List ℕ). rank ((clear_action h p).events (nth xs b)))
            (clear_action-queue h p) in
        omega (arith, below, (at c).0, (at c).1, (at d).0, (at d).1, same c, same d)

    pub lacking-IsOrderly :
        (t : ℕ) → ((q : ℕ) → Held h q → t ≤ (s.events q).when) → IsOrderly (lacking s t h p)
    unfolding clear_action
    lacking-IsOrderly t due = record {
      ordered = λ c low inside. clear_action-key (parent c) c (left.0 c low inside);
      sized = λ q. omega (arith, (clear_action-rank h p q).0, (left.2 q).0, good.sized q);
      indexed =
          λ c inside. (clear_action-rank h p (nth h.queue c)).2 ∙ left.3 good.indexed c inside;
      waits = lacking-Waits t due;
      listed = λ q listed.
          ground (arith, is_pending-delete s.pending p q, good.listed q, departed_count q);
      in_range = good.in_range;
    }

  find_pending :
      (s : Simulator Action) (id : ℕ)
      → IsOrderly s
      → is_pending s.pending id ≡ true
      → (c : ℕ) × (c < length s.queue) × ((s.events id).index ≡ some c) × (nth s.queue c ≡ id)
  find_pending s id good pending =
      let (c, inside, found) = nth-count id s.queue (good.listed id pending) in
      (c, inside, ap (λ (q : ℕ). (s.events q).index) (sym found) ∙ good.indexed c inside, found)

  -- What `Cancel` answers, and what it leaves.
  abbrev pub Cancelled : Simulator Action → ℕ → Simulator Action × Bool → Type 0
  Cancelled s id r =
      (r.1 ≡ is_pending s.pending id)
      × (is_pending r.0.pending id ≡ false)
      × (count id r.0.queue ≡ 0)
      × (r.0.now ≡ s.now)
      × ((q : ℕ) → (q == id) ≡ false → count q r.0.queue ≡ count q s.queue)

  not_held :
      (s : Simulator Action) (id : ℕ)
      → IsOrderly s
      → is_pending s.pending id ≡ false
      → count id s.queue ≡ 0
  not_held s id good unlisted =
      let out : ¬ Held s.heap id =
        λ held. let listed = (good.waits id held).mapped in cc (listed, unlisted) in
      omega (arith, out)

  taken_off :
      (s : Simulator Action) (id : ℕ) (h : Heap EventTag Action)
      → IsOrderly s
      → is_pending s.pending id ≡ true
      → Departed s h id
      → IsOrderly (lacking s s.now h id) × Cancelled s id (lacking s s.now h id, true)
  unfolding clear_action
  taken_off s id h good listed left = (
    lacking-IsOrderly s h id good left s.now
        (λ q held. (good.waits q (departed-Held s h id good left q held).0).ahead),
    (
      sym listed,
      ground (arith, is_pending-delete s.pending id id),
      departed_gone s h id good left,
      refl,
      λ q other. ground (arith, departed_count s h id good left q),
    ),
  )

  cancelled_lem :
      (s : Simulator Action) (id : ℕ)
      → IsOrderly s
      → is_pending s.pending id ≡ true
      → Returns
          (λ r. IsOrderly r.0 × Cancelled s id r)
          (or_panic (s.events id).index >>= λ index.
            remove s.heap index >>= λ r. ok (lacking s s.now r.0 id, true))
  cancelled_lem s id good listed =
      let (c, inside, place, found) = find_pending s id good listed in
      rw place (
        Returns-bind
          {Good = λ r.
            (r.1 ≡ nth s.queue c)
            × IsHeap r.0
            × Perm (r.1 ∷ r.0.queue) s.queue
            × Alike s.events r.0.events
            × (Indexed s.heap → Indexed r.0)}
          (remove-IsHeap s.heap c good.sized inside good.ordered)
          λ r q.
            let left : Departed s r.0 id =
              (q.1, subst (λ p. Perm (p ∷ r.0.queue) s.queue) (q.0 ∙ found) q.2, q.3, q.4) in
            returns (taken_off s id r.0 good listed left))

  -- Cancelling in a simulator that is in order returns and keeps it in order. The answer is whether the
  -- identifier was pending; it is neither pending nor in the heap afterwards, every other
  -- event stays in the heap, and the clock stays.
  pub cancel_total :
      (s : Simulator Action) (id : ℕ)
      → IsOrderly s
      → Returns (λ r. IsOrderly r.0 × Cancelled s id r) (cancel s id)
  unfolding cancel
  cancel_total s id good =
      Returns-if (not (is_pending s.pending id))
        (λ unknown.
          let unlisted : is_pending s.pending id ≡ false = ground arith in
          returns
            (good, (sym unlisted, unlisted, not_held s id good unlisted, refl, λ q other. refl)))
        λ known. cancelled_lem s id good (ground arith)
