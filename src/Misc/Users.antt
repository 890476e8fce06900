-- ===== src/Misc/Users.antt =====
-- One call of `nethuns_set_if_promisc` or `nethuns_clear_if_promisc` of src/misc.rs, on an interface
-- that is shared.
use rust_nethuns.Common.{
  ℕ, suc, ◌+◌, ◌-◌, ◌^◌, ◌≤◌, ◌<◌, ◌≡◌, ◌⊎◌, inl, inr, ◌∙◌, sym, true, false, ◌==◌, ==_iff,
  Bool-cases, Option, none, some, List, ok, err, arith,
}
use rust_nethuns.Misc.{
  NethunsNetInfo, IfCalls, Process, get_info, inc_i32, dec_i32, not_positive, info_for, promisc_bit,
  with_promisc, without_promisc, on_system, store_info, flags_set, flags_read, set_promisc,
  nethuns_set_if_promisc, drop_user, nethuns_clear_if_promisc,
}
use native.Mathlib.Decide.{dec_lt}
use rust_nethuns.Misc.Mode.{ModeLaws, read-cases, set-cases, with-bit, without-bit}
use rust_nethuns.Misc.Counted.{
  Entry, IsCounted, mode_on, recounted, info_for-Entry, clear_promisc-unlocked, seen-IsCounted,
  fewer-IsCounted, lost-IsCounted,
}

module _ {W : Type 0} {calls : IfCalls W} {devname : List ℕ} (laws : ModeLaws calls devname) where
  module _ {before budget users lost : ℕ} (s : Process W)
      (v : IsCounted laws before (suc budget) users lost s) where
    -- The end of a call that sets the mode, with the flags that have been read.
    set_promisc_lem :
        (flags : ℕ)
        → promisc_bit flags ≡ laws.mode s.system
        → (s' : Process W) × (((set_promisc calls devname flags s ≡ (ok tt, s'))
              × IsCounted laws before budget (suc users) lost s')
            ⊎ ((set_promisc calls devname flags s ≡ (err tt, s'))
                × IsCounted laws before budget users lost s'))
    unfolding set_promisc flags_set
    set_promisc_lem flags bit =
        let info = info_for (get_info s.global devname) flags in
        let (at_least, at_most, room) =
          info_for-Entry laws before budget users lost (laws.mode s.system) flags
            (get_info s.global devname) v.entry bit in
        let up : inc_i32 info.promisc_refcnt ≡ suc info.promisc_refcnt = omega arith in
        let down : dec_i32 (suc info.promisc_refcnt) ≡ info.promisc_refcnt = omega arith in
        elim (Bool-cases (promisc_bit flags == 0)) [
          | inr already ↦ (
            store_info s devname info (suc info.promisc_refcnt),
            inl (
              rw (set_promisc, v.unlocked, already, up),
              recounted laws before budget (suc users) lost (suc info.promisc_refcnt) s info
                  s.system v.before_small v.unlocked (omega arith) (omega arith) (omega arith)
                  (inr (mode_on _ _ already bit (laws.mode_small s.system))) (inr (omega arith)),
            ),
          )
          | inl off ↦
              let (w, cases) = set-cases laws s.system (with_promisc flags) in
              elim cases [
                | inl (failed, kept) ↦ (
                  on_system (store_info s devname info info.promisc_refcnt) w,
                  inr (
                    rw (set_promisc, v.unlocked, off, up, down, failed),
                    recounted laws before budget users lost info.promisc_refcnt s info w
                        v.before_small v.unlocked at_least at_most (omega arith)
                        (rw kept v.while_used) (rw kept v.when_unused),
                  ),
                )
                | inr (done, now) ↦ (
                  on_system (store_info s devname info (suc info.promisc_refcnt)) w,
                  inl (
                    rw (set_promisc, v.unlocked, off, up, done),
                    recounted laws before budget (suc users) lost (suc info.promisc_refcnt) s info w
                        v.before_small v.unlocked (omega arith) (omega arith) (omega arith)
                        (inr (now ∙ with-bit flags ((==_iff _ _).0 off))) (inr (omega arith)),
                  ),
                )
              ]
        ]

  module _ {before budget users lost : ℕ} (s : Process W)
      (v : IsCounted laws before (suc budget) (suc users) lost s) where
    -- The end of a call that clears the mode, with the count that has been found.
    drop_user_lem :
        (flags : ℕ) (found : Option NethunsNetInfo)
        → Entry before (suc budget) (suc users) lost (laws.mode s.system) found
        → (s' : Process W) × (((drop_user calls devname flags s found ≡ (ok tt, s'))
              × IsCounted laws before budget users lost s')
            ⊎ ((drop_user calls devname flags s found ≡ (err tt, s'))
                × IsCounted laws before budget users (suc lost) s'))
    unfolding drop_user flags_set
    drop_user_lem flags none (z, _, _) = absurd (omega arith)
    drop_user_lem flags (some info) (at_least, at_most, room) =
        let left : ℕ = info.promisc_refcnt - 1 in
        let down : dec_i32 info.promisc_refcnt ≡ left = omega arith in
        elim (Bool-cases (not_positive left)) [
          | inr used ↦ (
            store_info s devname info left,
            inl (
              rw (drop_user, down, used),
              recounted laws before budget users lost left s info s.system v.before_small v.unlocked
                  (omega arith) (omega arith) (omega arith)
                  (elim v.while_used [ inl z ↦ absurd (omega arith) | inr on ↦ inr on ])
                  (still_used left used (omega arith)),
            ),
          )
          | inl unused ↦
              let none_left : left ≡ 0 = positive left unused (omega arith) in
              let (w, cases) = set-cases laws s.system (without_promisc flags) in
              elim cases [
                | inl (failed, kept) ↦ (
                  on_system (store_info s devname info left) w,
                  inr (
                    rw (drop_user, down, unused, failed),
                    recounted laws before budget users (suc lost) left s info w v.before_small
                        v.unlocked (omega arith) (omega arith) (omega arith) (inl (omega arith))
                        (inr (omega arith)),
                  ),
                )
                | inr (done, now) ↦ (
                  on_system (store_info s devname info left) w,
                  inl (
                    rw (drop_user, down, unused, done),
                    recounted laws before budget users lost left s info w v.before_small v.unlocked
                        (omega arith) (omega arith) (omega arith) (inl (omega arith))
                        (inl (now ∙ without-bit flags ∙ omega arith)),
                  ),
                )
              ]
        ]
      where
        positive : (n : ℕ) → not_positive n ≡ true → n < 2 ^ 31 → n ≡ 0
        positive n e small = ground arith

        not_zero : (n : ℕ) → not_positive n ≡ false → 0 < n
        not_zero n e = ground arith

        -- The count that is left is for another user, for a failed call, or for the mode of before.
        still_used :
            (left : ℕ)
            → not_positive left ≡ false
            → suc left ≤ suc users + before + lost
            → (laws.mode s.system ≡ before) ⊎ (0 < users + lost)
        still_used left used at_most = elim (dec_lt 0 (users + lost)) [
          | yes more ↦ inr more
          | no alone ↦ elim v.while_used [
            | inl z ↦ absurd (omega arith)
            | inr on ↦ inl (omega (arith, not_zero left used, v.before_small))
          ]
        ]

  module _ {before budget users lost : ℕ} (s : Process W)
      (v : IsCounted laws before (suc budget) (suc users) lost s) where
    -- A call that clears the mode: there is a user fewer, and perhaps one more failed call.
    pub clear_lem :
        (s' : Process W) × (((nethuns_clear_if_promisc calls s devname ≡ some (ok tt, s'))
            × IsCounted laws before budget users lost s')
          ⊎ ((nethuns_clear_if_promisc calls s devname ≡ some (err tt, s'))
              × IsCounted laws before budget users (suc lost) s'))
    unfolding nethuns_clear_if_promisc flags_read
    clear_lem =
        let (w, kept, cases) = read-cases laws s.system in
        elim cases [
          | inl failed ↦ (
            on_system s w,
            inr (
              rw (nethuns_clear_if_promisc, failed),
              lost-IsCounted laws (on_system s w) (seen-IsCounted laws s w kept v),
            ),
          )
          | inr (flags, read, bit) ↦
              let seen = seen-IsCounted laws s w kept v in
              let (s', ends) =
                drop_user_lem (on_system s w) seen flags (get_info s.global devname) seen.entry in
              (
                s',
                elim ends [
                  | inl (done, counted) ↦ inl (
                    rw (
                      nethuns_clear_if_promisc,
                      read,
                      clear_promisc-unlocked laws (on_system s w) flags v.unlocked,
                      done,
                    ),
                    counted,
                  )
                  | inr (failed, counted) ↦ inr (
                    rw (
                      nethuns_clear_if_promisc,
                      read,
                      clear_promisc-unlocked laws (on_system s w) flags v.unlocked,
                      failed,
                    ),
                    counted,
                  )
                ],
              )
        ]

  module _ {before budget users lost : ℕ} (s : Process W)
      (v : IsCounted laws before (suc budget) users lost s) where
    -- A call that sets the mode: it succeeds and there is a user more, or it fails.
    pub set_lem :
        (s' : Process W) × (((nethuns_set_if_promisc calls s devname ≡ some (ok tt, s'))
            × IsCounted laws before budget (suc users) lost s')
          ⊎ ((nethuns_set_if_promisc calls s devname ≡ some (err tt, s'))
              × IsCounted laws before budget users lost s'))
    unfolding nethuns_set_if_promisc flags_read
    set_lem =
        let (w, kept, cases) = read-cases laws s.system in
        elim cases [
          | inl failed ↦ (
            on_system s w,
            inr (
              rw (nethuns_set_if_promisc, failed),
              fewer-IsCounted laws (on_system s w) (seen-IsCounted laws s w kept v),
            ),
          )
          | inr (flags, read, bit) ↦
              let (s', ends) =
                set_promisc_lem (on_system s w) (seen-IsCounted laws s w kept v) flags
                  (bit ∙ sym kept) in
              (
                s',
                elim ends [
                  | inl (done, counted) ↦ inl (rw (nethuns_set_if_promisc, read, done), counted)
                  | inr (failed, counted) ↦ inr (rw (nethuns_set_if_promisc, read, failed), counted)
                ],
              )
        ]
