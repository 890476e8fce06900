-- ===== src/Misc/Counted.antt =====
-- The count of the users of the promiscuous mode of an interface that src/misc.rs keeps in the map of
-- src/global.rs.
use rust_nethuns.Common.{
  ℕ, suc, ◌+◌, ◌^◌, ◌≤◌, ◌<◌, ◌≡◌, ◌⊎◌, inl, inr, refl, sym, ap, subst, true, false, ◌==◌, eq→==,
  Bool-cases, Option, none, some, List, [], ◌∷◌, if◌then◌else◌, ok, arith,
}
use rust_nethuns.Misc.{
  NethunsNetInfo, NetGlobal, IfCalls, Process, same_text, get_info, put_info, info_for, promisc_bit,
  on_system, store_info, drop_user, clear_promisc,
}
use rust_nethuns.Misc.Mode.{ModeLaws}

same_text_refl : (xs : List ℕ) → same_text xs xs ≡ true
unfolding same_text
same_text_refl [] = refl
same_text_refl (x ∷ xs) = rw (eq→== x x refl) (same_text_refl xs)

-- What is stored under a name is found under it.
get_info-put_info :
    (global : NetGlobal) (name : List ℕ) (info : NethunsNetInfo)
    → get_info (put_info global name info) name ≡ some info
unfolding get_info put_info
get_info-put_info [] name info = rw (same_text_refl name)
get_info-put_info ((key, old) ∷ global) name info = elim (Bool-cases (same_text key name)) [
  | inl same ↦ rw (put_info, same, get_info, same)
  | inr other ↦ rw (put_info, other, get_info, other) (get_info-put_info global name info)
]

-- The count of an interface for so many users and failed calls, when the mode was `before` at first,
-- and with so many calls to come.
abbrev pub Entry : ℕ → ℕ → ℕ → ℕ → ℕ → Option NethunsNetInfo → Type 0
Entry before budget users lost mode none =
    (users ≡ 0) × (mode ≡ before) × (before + budget < 2 ^ 31)
Entry before budget users lost mode (some info) =
    (users + before ≤ info.promisc_refcnt)
    × (info.promisc_refcnt ≤ users + before + lost)
    × (info.promisc_refcnt + budget < 2 ^ 31)

fewer-Entry :
    (before budget users lost mode : ℕ) (found : Option NethunsNetInfo)
    → Entry before (suc budget) users lost mode found
    → Entry before budget users lost mode found
fewer-Entry before budget users lost mode none (z, m, room) = (z, m, omega arith)
fewer-Entry before budget users lost mode (some info) (a, b, room) = (a, b, omega arith)

lost-Entry :
    (before budget users lost mode : ℕ) (found : Option NethunsNetInfo)
    → Entry before (suc budget) (suc users) lost mode found
    → Entry before budget users (suc lost) mode found
lost-Entry before budget users lost mode none (z, m, room) = absurd (omega arith)
lost-Entry before budget users lost mode (some info) (a, b, room) =
    (omega arith, omega arith, omega arith)

-- A mode whose bit is not 0 is on.
pub mode_on : (bit mode : ℕ) → (bit == 0) ≡ false → bit ≡ mode → mode ≤ 1 → mode ≡ 1
mode_on bit mode ne e small = ground arith

module _ {W : Type 0} {calls : IfCalls W} {devname : List ℕ} (laws : ModeLaws calls devname) where
  pub record IsCounted (before budget users lost : ℕ) (s : Process W) : Type 0 where
    pub before_small : before ≤ 1
    pub unlocked : s.poisoned ≡ false
    pub entry : Entry before budget users lost (laws.mode s.system) (get_info s.global devname)
    pub while_used : (users ≡ 0) ⊎ (laws.mode s.system ≡ 1)
    pub when_unused : (laws.mode s.system ≡ before) ⊎ (0 < users + lost)

  pub clear_promisc-unlocked :
      (s : Process W) (flags : ℕ)
      → s.poisoned ≡ false
      → clear_promisc calls devname flags s
        ≡ drop_user calls devname flags s (get_info s.global devname)
  unfolding clear_promisc
  clear_promisc-unlocked s flags e =
      ap
        (λ b. if b then (ok tt, s) else drop_user calls devname flags s (get_info s.global devname))
        e

  -- The process with a new count.
  pub recounted :
      (before budget users lost refcnt : ℕ) (s : Process W) (info : NethunsNetInfo) (w : W)
      → before ≤ 1
      → s.poisoned ≡ false
      → users + before ≤ refcnt
      → refcnt ≤ users + before + lost
      → refcnt + budget < 2 ^ 31
      → (users ≡ 0) ⊎ (laws.mode w ≡ 1)
      → (laws.mode w ≡ before) ⊎ (0 < users + lost)
      → IsCounted before budget users lost (on_system (store_info s devname info refcnt) w)
  recounted before budget users lost refcnt s info w small unlocked at_least at_most room on off =
      record {
        before_small = small;
        unlocked = unlocked;
        entry =
            subst (Entry before budget users lost (laws.mode w))
              (sym (get_info-put_info s.global devname (record info { promisc_refcnt = refcnt })))
              (at_least, at_most, room);
        while_used = on;
        when_unused = off;
      }

  -- The information that the next call works on.
  pub info_for-Entry :
      (before budget users lost mode flags : ℕ) (found : Option NethunsNetInfo)
      → Entry before (suc budget) users lost mode found
      → promisc_bit flags ≡ mode
      → (users + before ≤ (info_for found flags).promisc_refcnt)
        × ((info_for found flags).promisc_refcnt ≤ users + before + lost)
        × ((info_for found flags).promisc_refcnt + suc budget < 2 ^ 31)
  unfolding info_for
  info_for-Entry before budget users lost mode flags none (z, m, room) bit =
      (omega arith, omega arith, omega arith)
  info_for-Entry before budget users lost mode flags (some info) counts bit = counts

  -- A call that only reads the flags.
  pub seen-IsCounted :
      {before budget users lost : ℕ} (s : Process W) (w : W)
      → laws.mode w ≡ laws.mode s.system
      → IsCounted before budget users lost s
      → IsCounted before budget users lost (on_system s w)
  seen-IsCounted {before} {budget} {users} {lost} s w kept v = record {
    before_small = v.before_small;
    unlocked = v.unlocked;
    entry =
        subst (λ m. Entry before budget users lost m (get_info s.global devname)) (sym kept)
          v.entry;
    while_used = rw kept v.while_used;
    when_unused = rw kept v.when_unused;
  }

  -- A call fewer is to come.
  pub fewer-IsCounted :
      {before budget users lost : ℕ} (s : Process W)
      → IsCounted before (suc budget) users lost s
      → IsCounted before budget users lost s
  fewer-IsCounted {before} {budget} {users} {lost} s v = record {
    before_small = v.before_small;
    unlocked = v.unlocked;
    entry =
        fewer-Entry before budget users lost (laws.mode s.system) (get_info s.global devname)
          v.entry;
    while_used = v.while_used;
    when_unused = v.when_unused;
  }

  -- A user leaves, but the count cannot be taken down.
  pub lost-IsCounted :
      {before budget users lost : ℕ} (s : Process W)
      → IsCounted before (suc budget) (suc users) lost s
      → IsCounted before budget users (suc lost) s
  lost-IsCounted {before} {budget} {users} {lost} s v = record {
    before_small = v.before_small;
    unlocked = v.unlocked;
    entry =
        lost-Entry before budget users lost (laws.mode s.system) (get_info s.global devname)
          v.entry;
    while_used = elim v.while_used [ inl z ↦ absurd (omega arith) | inr on ↦ inr on ];
    when_unused = inr (omega arith);
  }
