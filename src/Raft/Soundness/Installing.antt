-- ===== src/Raft/Soundness/Installing.antt =====
-- raft/node.go: handleInstallSnapshot on a sound node.
use native.Mathlib.Decide.{dec_le}
use d_raft.Base.{
  ℕ, ◌+◌, ◌-◌, ◌≤◌, ◌<◌, ◌≡◌, ◌≢◌, sym, ap, subst, ◌∙◌, inl, inr, true, false, ◌&&◌, not, List, [],
  ◌∷◌, arith, ok, ◌>>=◌, Returns, returns, Returns-if, if◌then◌else◌, ◌==◌, ltb, leb, u64,
  max_uint64, length, length-drop, drop, drop_all, Bool-cases, Option-cases,
}
use d_raft.Raft.Types.{NodeId, Entry, Membership, Snapshot, Message, Node}
use d_raft.Raft.Membership.{
  membership_is_zero, stable_membership, validate_membership, transition_membership,
}
use d_raft.Raft.Log.{boundary, term_at}
use d_raft.Raft.Replication.{
  suffix_fits, snapshot_malformed, kept_suffix, adopt_snapshot, install_as_follower,
  handle_install_snapshot, follow_sender,
}
use d_raft.Raft.Soundness.Replay.{
  Numbered, Numbered-drop, replay, replay-append, replay_one, replay_nil,
}
use d_raft.Raft.Soundness.Invariant.{
  LogSound, IsSound, base_of_snapshot, refresh_membership_lem, entries_from-drop,
}
use d_raft.Raft.Soundness.Appending.{
  IsIdle, idle-RoleReady, follow_sender-IsSound, follow_sender-IsIdle,
}

-- The loop over the suffix accepts it only if it has a replay.
suffix_fits-replay :
    (members : List NodeId) (m : Membership) (es : List Entry)
    → suffix_fits members m es ≡ true
    → (m' : Membership) × (replay members m es ≡ ok m')
unfolding suffix_fits
suffix_fits-replay members m [] h = (m, replay_nil members m)
suffix_fits-replay members m (e ∷ es) h = elim (Option-cases (transition_membership m e members)) [
  | inl refused ↦ absurd (cc (rw (refused, suffix_fits) at h))
  | inr (next, follows) ↦
      let (m', run) = suffix_fits-replay members next es (rw (follows, suffix_fits) at h) in
      (
        m',
        replay-append members m (e ∷ []) es
            ∙ ap (λ r. r >>= λ c. replay members c es) (replay_one members m next e follows)
            ∙ run,
      )
]

-- What is kept of the log goes on from the snapshot.
kept_suffix-Numbered :
    (n : Node) (s : Snapshot)
    → LogSound n
    → boundary n ≤ s.last_included_index
    → s.last_included_index < u64
    → Numbered s.last_included_index (kept_suffix n s)
      × (s.last_included_index + length (kept_suffix n s) < u64)
unfolding kept_suffix
kept_suffix-Numbered n s sound low range =
    let index = s.last_included_index in
    elim (Bool-cases (term_at n index == s.last_included_term && ltb index max_uint64)) [
      | inr none_kept ↦ rw none_kept (tt, omega arith)
      | inl kept ↦ rw (kept, entries_from-drop n index sound.0 low) (after sound.1)
    ]
  where
    -- Past the end of the log nothing is kept.
    after :
        Numbered (boundary n) n.log
        → Numbered s.last_included_index (drop (s.last_included_index - boundary n) n.log)
          × (s.last_included_index + length (drop (s.last_included_index - boundary n) n.log) < u64)
    after numbered = elim (dec_le (s.last_included_index - boundary n) (length n.log)) [
      | yes inside ↦ (
        subst (λ (j : ℕ). Numbered j (drop (s.last_included_index - boundary n) n.log))
            (omega arith)
            (Numbered-drop (boundary n) (s.last_included_index - boundary n) n.log numbered inside),
        omega (arith, sound.0, length-drop {0} (s.last_included_index - boundary n) n.log),
      )
      | no outside ↦
          rw (drop_all (s.last_included_index - boundary n) n.log (omega arith)) (tt, omega arith)
    ]

-- The checks that a snapshot passes.
record WellFormed (n : Node) (m : Message) (c : Membership) : Type 0 where
  positive : m.snapshot.last_included_index ≢ 0
  valid : validate_membership c n.members ≡ true

snapshot_malformed-WellFormed :
    (n : Node) (m : Message) (c : Membership) → snapshot_malformed n m c ≡ false → WellFormed n m c
unfolding snapshot_malformed
snapshot_malformed-WellFormed n m c h = record { positive = ground arith; valid = ground arith }

install_as_follower_total :
    (n : Node) (m : Message)
    → IsSound n
    → IsIdle n
    → m.snapshot.last_included_index < u64
    → Returns (λ r. IsSound r.0) (install_as_follower n m)
unfolding install_as_follower adopt_snapshot
install_as_follower_total n m s idle range =
    let snap = m.snapshot in
    let c =
      if membership_is_zero snap.membership
      then stable_membership snap.members []
      else snap.membership in
    let suffix = kept_suffix n snap in
    Returns-if (snapshot_malformed n m c) (λ _. returns s)
      (λ good.
        Returns-if (leb snap.last_included_index n.commit_index) (λ _. returns s)
          (λ ahead.
            Returns-if (not (suffix_fits n.members c suffix)) (λ _. returns s)
              (λ fits.
                let w = snapshot_malformed-WellFormed n m c good in
                let (c', run) = suffix_fits-replay n.members c suffix (ground arith) in
                let (numbered, room) =
                  kept_suffix-Numbered n snap s.0 (ground (arith, s.1.0, s.1.1)) range in
                let adopted = adopt_snapshot n snap suffix in
                let base = base_of_snapshot snap n.initial_membership w.positive in
                let log_sound : LogSound (record adopted { membership = c' }) = (
                  room,
                  numbered,
                  subst (λ b. validate_membership b n.members ≡ true) (sym base) w.valid,
                  ap (λ b. replay n.members b suffix) base ∙ run,
                ) in
                rw (refresh_membership_lem adopted c' log_sound) (
                  returns (
                    log_sound,
                    omega arith,
                    idle-RoleReady (record adopted { membership = c' }) idle,
                  )))))

pub handle_install_snapshot_total :
    (n : Node) (m : Message)
    → IsSound n
    → m.snapshot.last_included_index < u64
    → Returns (λ r. IsSound r.0) (handle_install_snapshot n m)
unfolding handle_install_snapshot
handle_install_snapshot_total n m s range =
    Returns-if (ltb m.term n.current_term) (λ _. returns s)
      (λ _.
        install_as_follower_total (follow_sender n m) m (follow_sender-IsSound n m s)
          (follow_sender-IsIdle n m) range)
