-- ===== src/Sim/Queue.antt =====
-- queue.go: the heap of scheduled events. An event is a mutable object that the heap and the map of
-- pending events share; here a store holds the objects, and a pointer is the event's identifier,
-- which is issued once and never changes.
pub mod Places
pub mod Indexes
pub mod Ends
pub mod Counts
pub mod Sift
pub mod Sink
pub mod Pushing
pub mod Shortened
pub mod Removing
use d_raft.Base.{
  ℕ, zero, suc, ◌+◌, ◌-◌, ◌*◌, ◌/◌, Bool, not, Option, none, some, List, [], ◌∷◌, ◌++◌, ltb, leb,
  ◌==◌, if◌then◌else◌, length, get_elem?, take, Run, ok, ◌>>=◌, or_panic,
}

-- The parts of an event: its time, its tag, its action (`none` is nil), and its place in the heap
-- (`none` is the index -1).
pub record ScheduledEvent (Tag Action : Type 0) : Type 0 where
  pub id : ℕ
  pub when : ℕ
  pub tag : Tag
  pub action : Option Action
  pub index : Option ℕ

-- The heap, with the store of the events that the pointers name.
pub record Heap (Tag Action : Type 0) : Type 0 where
  pub queue : List ℕ
  pub events : ℕ → ScheduledEvent Tag Action

pub set_elem {ℓ} : {A : Type ℓ} → List A → ℕ → A → List A
set_elem [] i x = []
set_elem (y ∷ ys) zero x = x ∷ ys
set_elem (y ∷ ys) (suc i) x = y ∷ set_elem ys i x

module _ {Tag Action : Type 0} where
  -- A write to an event through its pointer.
  unfoldable pub write_event :
      (ℕ → ScheduledEvent Tag Action)
      → ℕ
      → ScheduledEvent Tag Action
      → ℕ
      → ScheduledEvent Tag Action
  write_event events p e q = if q == p then e else events q

  pub set_index : Heap Tag Action → ℕ → Option ℕ → Heap Tag Action
  unfolding write_event
  set_index h p i = record h { events = write_event h.events p (record (h.events p) { index = i }) }

  -- The order of the heap: by time, then by identifier.
  pub earlier : ScheduledEvent Tag Action → ScheduledEvent Tag Action → Bool
  earlier a b = if not (a.when == b.when) then ltb a.when b.when else ltb a.id b.id

  pub less : Heap Tag Action → ℕ → ℕ → Run Bool
  unfolding earlier
  less h i j = do
    p ← or_panic (get_elem? h.queue i)
    q ← or_panic (get_elem? h.queue j)
    ok (earlier (h.events p) (h.events q))

  pub swap : Heap Tag Action → ℕ → ℕ → Run (Heap Tag Action)
  unfolding set_elem set_index
  swap h i j = do
    p ← or_panic (get_elem? h.queue i)
    q ← or_panic (get_elem? h.queue j)
    let swapped = record h { queue = set_elem (set_elem h.queue i q) j p }
    ok (set_index (set_index swapped q (some i)) p (some j))

  -- The loop of `up`. An index at least halves, so that as much fuel as the index is enough.
  pub up_from : ℕ → Heap Tag Action → ℕ → Run (Heap Tag Action)
  unfolding less swap
  up_from zero h index = ok h
  up_from (suc fuel) h index =
      let parent = (index - 1) / 2 in
      let climb = swap h index parent >>= λ h'. up_from fuel h' parent in
      let compared = less h index parent >>= λ b. if not b then ok h else climb in
      if ltb 0 index then compared else ok h

  pub up : Heap Tag Action → ℕ → Run (Heap Tag Action)
  unfolding up_from
  up h index = up_from index h index

  -- The child that `down` compares with: the right one where there is one and it is less.
  pub smallest_child : Heap Tag Action → ℕ → Run ℕ
  unfolding less
  smallest_child h left =
      let right = left + 1 in
      let pick = less h right left >>= λ b. ok (if b then right else left) in
      if ltb right (length h.queue) then pick else ok left

  -- The loop of `down`. The index grows, so that the length of the heap is enough fuel. The result
  -- is the heap with the last index.
  pub down_from : ℕ → Heap Tag Action → ℕ → Run (Heap Tag Action × ℕ)
  unfolding less swap smallest_child
  down_from zero h index = ok (h, index)
  down_from (suc fuel) h index =
      let left = 2 * index + 1 in
      let sink = do
        smallest ← smallest_child h left
        b ← less h smallest index
        let lower = swap h index smallest >>= λ h'. down_from fuel h' smallest
        if not b then ok (h, index) else lower
      in if leb (length h.queue) left then ok (h, index) else sink

  pub down : Heap Tag Action → ℕ → Run (Heap Tag Action × Bool)
  unfolding down_from
  down h index = do (h', last) ← down_from (length h.queue) h index; ok (h', not (last == index))

  unfoldable pub push : Heap Tag Action → ScheduledEvent Tag Action → Run (Heap Tag Action)
  unfolding up write_event
  push h e =
      let at = length h.queue in
      up
        (record {
          queue = h.queue ++ e.id ∷ [];
          events = write_event h.events e.id (record e { index = some at });
        })
        at

  -- The heap with its last pointer taken off.
  pub drop_last : Heap Tag Action → ℕ → ℕ → Heap Tag Action
  unfolding set_index
  drop_last h last p = set_index (record h { queue = take last h.queue }) p none

  -- `remove`; the result is the heap with the pointer to the event that is removed.
  unfoldable pub remove : Heap Tag Action → ℕ → Run (Heap Tag Action × ℕ)
  unfolding swap drop_last down up
  remove h index =
      let last = length h.queue - 1 in
      do
        swapped ← swap h index last
        p ← or_panic (get_elem? swapped.queue last)
        let shorter = drop_last swapped last p
        let restore = down shorter index >>= λ r. if not r.1 then up r.0 index else ok r.0
        restored ← if not (index == last) then restore else ok shorter
        ok (restored, p)

  unfoldable pub pop : Heap Tag Action → Run (Heap Tag Action × ℕ)
  unfolding remove
  pop h = remove h 0
