-- ===== src/Raft/Soundness/Replay.antt =====
-- raft/node.go: `membershipAt` over a log whose entries are numbered, as a fold.
use mathlib.Core.Path.{fun_ext}
use d_raft.Base.{
  ℕ, zero, suc, ◌+◌, ◌≤◌, ◌≡◌, refl, sym, ap, subst, ◌∙◌, inl, inr, true, false, not, some, List,
  [], ◌∷◌, ◌++◌, arith, Run, ok, panic, ◌>>=◌, or_panic, take, drop, length, take-append-drop,
  >>=_assoc, ltb, if◌then◌else◌, Bool-cases, Option-cases,
}
use d_raft.Raft.Types.{NodeId, Entry, Membership}
use d_raft.Raft.Membership.{is_config, transition_membership, validate_membership}
use d_raft.Raft.Membership.Transition.{transition_membership-valid, transition_membership_plain}
use d_raft.Raft.Log.{replay_configs}

-- The entries carry the indexes `b + 1`, `b + 2`, and so on.
abbrev pub Numbered : ℕ → List Entry → Type 0
Numbered b [] = Unit {0}
Numbered b (e ∷ es) = (e.index ≡ suc b) × Numbered (suc b) es

pub Numbered-append :
    (b : ℕ) (xs ys : List Entry)
    → Numbered b xs
    → Numbered (b + length xs) ys
    → Numbered b (xs ++ ys)
Numbered-append b [] ys h k = subst (λ (j : ℕ). Numbered j ys) (omega arith) k
Numbered-append b (x ∷ xs) ys h k =
    (h.0, Numbered-append (suc b) xs ys h.1 (subst (λ (j : ℕ). Numbered j ys) (omega arith) k))

pub Numbered-take : (b k : ℕ) (log : List Entry) → Numbered b log → Numbered b (take k log)
Numbered-take b zero log h = tt
Numbered-take b (suc k) [] h = tt
Numbered-take b (suc k) (x ∷ log) h = (h.0, Numbered-take (suc b) k log h.1)

pub Numbered-drop :
    (b k : ℕ) (log : List Entry) → Numbered b log → k ≤ length log → Numbered (b + k) (drop k log)
Numbered-drop b zero log h le = subst (λ (j : ℕ). Numbered j log) (omega arith) h
Numbered-drop b (suc k) [] h le = tt
Numbered-drop b (suc k) (x ∷ log) h le =
    subst (λ (j : ℕ). Numbered j (drop k log)) (omega arith)
      (Numbered-drop (suc b) k log h.1 (omega arith))

-- `membershipAt`'s loop with no bound on the index.
unfoldable pub replay : List NodeId → Membership → List Entry → Run Membership
replay members m [] = ok m
replay members m (e ∷ es) =
    let skip = replay members m es in
    let follow = or_panic (transition_membership m e members) >>= λ m'. replay members m' es in
    if not (is_config e.type) then skip else follow

module _ (members : List NodeId) where
  pub replay_configs-below :
      (b index : ℕ) (m : Membership) (log : List Entry)
      → Numbered b log
      → index ≤ b
      → replay_configs members index m log ≡ ok m
  unfolding replay_configs
  replay_configs-below b index m [] h le = refl
  replay_configs-below b index m (e ∷ es) h le = ground arith

  pub replay_configs-take :
      (k b index : ℕ) (m : Membership) (log : List Entry)
      → Numbered b log
      → index ≡ b + k
      → replay_configs members index m log ≡ replay members m (take k log)
  unfolding replay_configs replay
  replay_configs-take zero b index m log h e = replay_configs-below b index m log h (omega arith)
  replay_configs-take (suc k) b index m [] h e = refl
  replay_configs-take (suc k) b index m (x ∷ es) h e = elim (Bool-cases (ltb index x.index)) [
    | inl below ↦ absurd (ground arith)
    | inr reached ↦ elim (Bool-cases (not (is_config x.type))) [
      | inl plain ↦ rw (reached, plain) (replay_configs-take k (suc b) index m es h.1 (omega arith))
      | inr config ↦
          rw (reached, config)
            (ap
              (λ (f : Membership → Run Membership).
                or_panic (transition_membership m x members) >>= f)
              (fun_ext λ m'. replay_configs-take k (suc b) index m' es h.1 (omega arith)))
    ]
  ]

  pub replay-append :
      (m : Membership) (xs ys : List Entry)
      → replay members m (xs ++ ys) ≡ (replay members m xs >>= λ m'. replay members m' ys)
  unfolding replay
  replay-append m [] ys = refl
  replay-append m (e ∷ es) ys = elim (Bool-cases (not (is_config e.type))) [
    | inl plain ↦ rw plain (replay-append m es ys)
    | inr config ↦ rw config (
        ap (λ (f : Membership → Run Membership). or_panic (transition_membership m e members) >>= f)
          (fun_ext λ m'. replay-append m' es ys)
        ∙ sym (>>=_assoc (or_panic (transition_membership m e members)) _ _))
  ]

  -- A replay of the whole log splits at every index.
  pub replay_split :
      (m m' : Membership) (k : ℕ) (log : List Entry)
      → replay members m log ≡ ok m'
      → (middle : Membership) × (replay members m (take k log) ≡ ok middle)
        × (replay members middle (drop k log) ≡ ok m')
  replay_split m m' k log h = parts (replay members m (take k log)) refl
    where
      whole : (replay members m (take k log) >>= λ c. replay members c (drop k log)) ≡ ok m'
      whole =
          sym (replay-append m (take k log) (drop k log))
          ∙ ap (replay members m) (take-append-drop k log)
          ∙ h

      parts :
          (r : Run Membership)
          → replay members m (take k log) ≡ r
          → (middle : Membership) × (replay members m (take k log) ≡ ok middle)
            × (replay members middle (drop k log) ≡ ok m')
      parts (ok c) e = (c, e, sym (ap (λ r. r >>= λ c. replay members c (drop k log)) e) ∙ whole)
      parts panic e = cc (whole)

  -- The configuration that an accepted entry leads to is the one that the replay reaches.
  pub replay_one :
      (m m' : Membership) (e : Entry)
      → transition_membership m e members ≡ some m'
      → replay members m (e ∷ []) ≡ ok m'
  unfolding replay
  replay_one m m' e h = elim (Bool-cases (not (is_config e.type))) [
    | inl plain ↦ rw plain (ap ok (sym (transition_membership_plain m e members (ground arith) h)))
    | inr config ↦ rw (config, h)
  ]

  -- A replay leads from a valid configuration to a valid one.
  pub replay-valid :
      (m m' : Membership) (log : List Entry)
      → validate_membership m members ≡ true
      → replay members m log ≡ ok m'
      → validate_membership m' members ≡ true
  unfolding replay
  replay-valid m m' [] v h = ground arith
  replay-valid m m' (e ∷ es) v h = elim (Bool-cases (not (is_config e.type))) [
    | inl plain ↦ replay-valid m m' es v (rw plain at h)
    | inr config ↦ elim (Option-cases (transition_membership m e members)) [
      | inl refused ↦ absurd (cc (rw (config, refused) at h))
      | inr (c, accepted) ↦
          replay-valid c m' es (transition_membership-valid m e members v accepted)
            (rw (config, accepted) at h)
    ]
  ]

  -- An entry that is no configuration entry changes nothing.
  pub replay_plain :
      (m : Membership) (e : Entry) → is_config e.type ≡ false → replay members m (e ∷ []) ≡ ok m
  unfolding replay
  replay_plain m e h = rw h

  pub replay_nil : (m : Membership) → replay members m [] ≡ ok m
  unfolding replay
  replay_nil m = refl
