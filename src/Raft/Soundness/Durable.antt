-- ===== src/Raft/Soundness/Durable.antt =====
-- raft/node.go: the write barrier, from the dirty flag of Step's cases.
use d_raft.Base.{
  ℕ, ◌≡◌, refl, Bool, Option, if◌then◌else◌, true, ◌&&◌, ok, add_u64, Ensures-value, inl, inr,
  false, ◌||◌, not, none, some, [], ◌∷◌, arith, Ensures, ensures, Ensures-bind, Ensures-option,
  Returns, Returns-Ensured, ◌==◌, Bool-cases, Option-cases,
}
use d_raft.Raft.Types.{
  Node, PendingWrite, Error, awaiting_persistence, unexpected_persistence, persist, Input,
  persisted,
}
use d_raft.Raft.Election.{Reply}
use d_raft.Raft.Step.{
  Answer, done, failed, acknowledge_persistence, handle_input, conclude, transit, step,
}
use d_raft.Raft.Soundness.Invariant.{IsSound}
use d_raft.Raft.Soundness.Stepping.{step_total, Accepts}
use d_raft.Raft.Soundness.Handling.{handle_input-Honest}

abbrev pub is_acknowledgement : Input → Bool
is_acknowledgement (persisted token) = true
is_acknowledgement _ = false

-- The pending write that an acknowledgement releases.
abbrev pub matches_write : ℕ → PendingWrite → Bool
matches_write token write = not (token == 0) && token == write.token

-- The node that holds the effects of a reply back under the token of its write.
abbrev pub holding : Node → Reply → Node
holding m reply = record m {
  next_write_token = add_u64 m.next_write_token 1;
  pending = some (record { token = m.next_write_token; effects = reply.effects });
}

-- The write barrier: what a step answers, by what is pending and what the handler of the input left.
pub data Barrier (n : Node) : Input → Node × Answer → Type 0 where
  -- The write was acknowledged: its effects leave.
  released :
      {token : ℕ} {write : PendingWrite}
      → n.pending ≡ some write
      → matches_write token write ≡ true
      → Barrier n (persisted token) (record n { pending = none }, done write.effects)
  nothing_pending :
      {token : ℕ}
      → n.pending ≡ none
      → Barrier n (persisted token) (n, failed unexpected_persistence)
  other_token :
      {token : ℕ} {write : PendingWrite}
      → n.pending ≡ some write
      → matches_write token write ≡ false
      → Barrier n (persisted token) (n, failed unexpected_persistence)
  -- While a write is pending, every other input is refused.
  awaiting :
      {input : Input} {write : PendingWrite}
      → is_acknowledgement input ≡ false
      → n.pending ≡ some write
      → Barrier n input (n, failed awaiting_persistence)
  errored :
      {input : Input} {m : Node} {reply : Reply} {error : Error}
      → is_acknowledgement input ≡ false
      → n.pending ≡ none
      → handle_input n input ≡ ok (m, reply)
      → reply.error ≡ some error
      → Barrier n input (m, failed error)
  -- Effects leave at once only where the durable state is as before.
  unwritten :
      {input : Input} {m : Node} {reply : Reply}
      → is_acknowledgement input ≡ false
      → n.pending ≡ none
      → handle_input n input ≡ ok (m, reply)
      → reply.error ≡ none
      → m.state ≡ n.state
      → Barrier n input (m, done reply.effects)
  -- Otherwise the one effect is the write of the durable state, and the node holds the others back.
  written :
      {input : Input} {m : Node} {reply : Reply}
      → is_acknowledgement input ≡ false
      → n.pending ≡ none
      → handle_input n input ≡ ok (m, reply)
      → reply.error ≡ none
      → reply.dirty ≡ true
      → Barrier n input (holding m reply, done (persist m.next_write_token m.state ∷ []))

conclude-Barrier :
    (n m : Node) (input : Input) (reply : Reply)
    → is_acknowledgement input ≡ false
    → n.pending ≡ none
    → handle_input n input ≡ ok (m, reply)
    → (reply.dirty ≡ false → reply.error ≡ none → m.state ≡ n.state)
    → Barrier n input (conclude m reply)
unfolding conclude
conclude-Barrier n m input reply other free left honest = elim (Option-cases reply.error) [
  | inr (error, e) ↦ rw (e, conclude) (errored other free left e)
  | inl e ↦ elim (Bool-cases reply.dirty) [
    | inl dirty ↦ rw (e, conclude, dirty) (written other free left e dirty)
    | inr clean ↦ rw (e, conclude, clean) (unwritten other free left e (honest clean e))
  ]
]

transit-Barrier :
    (n : Node) (input : Input)
    → is_acknowledgement input ≡ false
    → IsSound n
    → Accepts n input
    → Ensures (Barrier n input) (transit n input)
unfolding transit
transit-Barrier n input other s a =
    Ensures-option n.pending
      (λ free.
        Ensures-bind (Ensures-value (handle_input-Honest n input s a))
          λ r (left, h). ensures (conclude-Barrier n r.0 input r.1 other free left h))
      (λ write held. ensures (awaiting other held))

acknowledge_persistence-Barrier :
    (n : Node) (token : ℕ) → Barrier n (persisted token) (acknowledge_persistence n token)
unfolding acknowledge_persistence
acknowledge_persistence-Barrier n token = answered n.pending refl
  where
    answered :
        (found : Option PendingWrite)
        → n.pending ≡ found
        → Barrier n (persisted token) (elim found [
          | none ↦ (n, failed unexpected_persistence)
          | some write ↦
              if token == 0 || not (token == write.token)
              then (n, failed unexpected_persistence)
              else (record n { pending = none }, done write.effects)
        ])
    answered none e = nothing_pending e
    answered (some write) e = elim (Bool-cases (token == 0 || not (token == write.token))) [
      | inl bad ↦ rw bad (other_token e (ground arith))
      | inr good ↦ rw good (released e (ground arith))
    ]

ensured_step :
    (n : Node) (input : Input)
    → IsSound n
    → Accepts n input
    → Ensures (Barrier n input) (step n input)
unfolding step
ensured_step n (persisted token) s a = ensures (acknowledge_persistence-Barrier n token)
ensured_step n input s a = transit-Barrier n input refl s a

-- A step of a sound node returns and keeps the write barrier; where the input is a message, its
-- previous log index and the last index of its snapshot are 64-bit, and its entries agree with the
-- log above the node's snapshot. An acknowledgement of the pending write releases exactly the effects held
-- under it, and any other acknowledgement is refused; while a write is pending every other input is
-- refused, and neither changes the node. With nothing pending, the answer is the error of the input's
-- handler, or its effects, and then the durable state is as before, or only the write of the durable
-- state, and then the node holds exactly the handler's effects under the token of the write.
pub step-Barrier :
    (n : Node) (input : Input)
    → IsSound n
    → Accepts n input
    → Returns (Barrier n input) (step n input)
step-Barrier n input s a = Returns-Ensured (step_total n input s a) (ensured_step n input s a)
