-- ===== src/Misc/Sharing.antt =====
-- Sockets that set the promiscuous mode of one interface and clear it (src/misc.rs), one call after the
-- other. Calls of several threads can overlap: each reads the flags before it takes the lock. Such
-- interleavings are not modelled.
use rust_nethuns.Common.{
  ℕ, zero, suc, ◌+◌, ◌^◌, ◌<◌, ◌≡◌, ◌⊎◌, inl, inr, refl, sym, subst, false, Option, none, some,
  List, [], ◌∷◌, length, ok, err, arith,
}
use rust_nethuns.Misc.{
  IfCalls, Process, Done, get_info, nethuns_set_if_promisc, nethuns_clear_if_promisc,
}
use rust_nethuns.Misc.Mode.{ModeLaws}
use rust_nethuns.Misc.Counted.{Entry, IsCounted, fewer-IsCounted}
use rust_nethuns.Misc.Users.{set_lem, clear_lem}

-- A socket asks for the mode, or a socket that has it is dropped.
pub data Call : Type 0 where
  join leave : Call

module _ {W : Type 0} where
  -- What follows a call that has succeeded or failed; `none` is a panic.
  after_call :
      Option (Done W)
      → (Process W → Option (Process W × ℕ × ℕ))
      → (Process W → Option (Process W × ℕ × ℕ))
      → Option (Process W × ℕ × ℕ)
  after_call none done failed = none
  after_call (some (ok _, s)) done failed = done s
  after_call (some (err _, s)) done failed = failed s

-- A sequence of calls, with the number of users and that of failed calls to leave: a call to leave is
-- made by a user only, who is then gone even if it fails.
module _ {W : Type 0} (calls : IfCalls W) (devname : List ℕ) where
  unfoldable pub run : List Call → Process W → ℕ → ℕ → Option (Process W × ℕ × ℕ)
  unfolding after_call
  run [] s users lost = some (s, users, lost)
  run (join ∷ cs) s users lost =
      after_call (nethuns_set_if_promisc calls s devname) (λ s'. run cs s' (suc users) lost)
        (λ s'. run cs s' users lost)
  run (leave ∷ cs) s zero lost = run cs s zero lost
  run (leave ∷ cs) s (suc users) lost =
      after_call (nethuns_clear_if_promisc calls s devname) (λ s'. run cs s' users lost)
        (λ s'. run cs s' users (suc lost))

module _ {W : Type 0} {calls : IfCalls W} {devname : List ℕ} (laws : ModeLaws calls devname) where
  run-IsCounted :
      (cs : List Call) {before users lost : ℕ} (s : Process W)
      → IsCounted laws before (length cs) users lost s
      → (s' : Process W) × (users' : ℕ) × (lost' : ℕ) × (run calls devname cs s users lost
          ≡ some (s', users', lost'))
        × IsCounted laws before 0 users' lost' s'
  unfolding run after_call
  run-IsCounted [] s v = (s, _, _, refl, v)
  run-IsCounted (join ∷ cs) s v =
      let (s1, ends) = set_lem laws s v in
      elim ends [
        | inl (e, v1) ↦
            let (s', users', lost', e', v') = run-IsCounted cs s1 v1 in
            (s', users', lost', rw (run, e) e', v')
        | inr (e, v1) ↦
            let (s', users', lost', e', v') = run-IsCounted cs s1 v1 in
            (s', users', lost', rw (run, e) e', v')
      ]
  run-IsCounted (leave ∷ cs) {users = zero} s v = run-IsCounted cs s (fewer-IsCounted laws s v)
  run-IsCounted (leave ∷ cs) {users = suc users} s v =
      let (s1, ends) = clear_lem laws s v in
      elim ends [
        | inl (e, v1) ↦
            let (s', users', lost', e', v') = run-IsCounted cs s1 v1 in
            (s', users', lost', rw (run, e) e', v')
        | inr (e, v1) ↦
            let (s', users', lost', e', v') = run-IsCounted cs s1 v1 in
            (s', users', lost', rw (run, e) e', v')
      ]

  -- Fewer than 2 ^ 30 calls of sockets that ask for the promiscuous mode of an interface and leave it,
  -- each of which begins after the one before it has returned, as in one thread,
  -- from a process whose lock is not poisoned and that knows nothing of the interface, never panic,
  -- whatever system calls fail. Afterwards the interface is in the mode if it has a user; and it is
  -- in the mode that it had at first, unless it has a user or a call to leave has failed. The
  -- condition is that the system calls obey `ModeLaws`.
  pub promisc_lem :
      (cs : List Call) (s : Process W)
      → length cs < 2 ^ 30
      → s.poisoned ≡ false
      → get_info s.global devname ≡ none
      → (s' : Process W) × (users' : ℕ) × (lost' : ℕ) × (run calls devname cs s 0 0
          ≡ some (s', users', lost'))
        × ((users' ≡ 0) ⊎ (laws.mode s'.system ≡ 1))
        × ((laws.mode s'.system ≡ laws.mode s.system) ⊎ (0 < users' + lost'))
  promisc_lem cs s few unlocked unknown =
      let at_first : IsCounted laws (laws.mode s.system) (length cs) 0 0 s = record {
        before_small = laws.mode_small s.system;
        unlocked = unlocked;
        entry =
            subst (Entry (laws.mode s.system) (length cs) 0 0 (laws.mode s.system)) (sym unknown)
              (refl, refl, omega (arith, laws.mode_small s.system));
        while_used = inl refl;
        when_unused = inl refl;
      } in
      let (s', users', lost', e, v) = run-IsCounted cs s at_first in
      (s', users', lost', e, v.while_used, v.when_unused)
