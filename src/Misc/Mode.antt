-- ===== src/Misc/Mode.antt =====
-- What the system calls of `nethuns_ioctl_if` of src/misc.rs do to the promiscuous mode of one
-- interface.
use rust_nethuns.Common.{
  ℕ, ◌%◌, ◌^◌, ◌≤◌, ◌≡◌, ◌⊎◌, inl, inr, ◌∙◌, refl, sym, ap, Bool, true, false, Option, none, some,
  List, take, ltb, Bool-cases, ok, err, arith,
}
use rust_nethuns.Misc.{
  IfCalls, nethuns_ioctl_if, ioctl_on, ioctl_read, ioctl_end, promisc_bit, with_promisc,
  without_promisc, widen,
}

-- Documented behaviour of the calls, for one interface: reading changes nothing and returns the
-- flag word, and setting the flags sets them or fails. `mode` is 1 in promiscuous mode, else 0.
pub record ModeLaws {W : Type 0} (calls : IfCalls W) (devname : List ℕ) : Type 0 where
  pub mode : W → ℕ
  pub mode_small : (w : W) → mode w ≤ 1
  pub open_keeps : (w : W) → mode (calls.open_socket w).1 ≡ mode w
  pub get_keeps : (w : W) → mode (calls.get_flags w (take 15 devname)).1 ≡ mode w
  pub get_reads :
      (w : W) (flags : ℕ)
      → (calls.get_flags w (take 15 devname)).0 ≡ some flags
      → promisc_bit flags ≡ mode w
  pub set_done :
      (w : W) (flags : ℕ)
      → (calls.set_flags w (take 15 devname) flags).0 ≡ true
      → mode (calls.set_flags w (take 15 devname) flags).1 ≡ promisc_bit flags
  pub set_failed :
      (w : W) (flags : ℕ)
      → (calls.set_flags w (take 15 devname) flags).0 ≡ false
      → mode (calls.set_flags w (take 15 devname) flags).1 ≡ mode w

-- The conversions keep the bit.
widen-bit : (flags : ℕ) → promisc_bit (widen (flags % 2 ^ 16)) ≡ promisc_bit flags
widen-bit flags = elim (Bool-cases (ltb (flags % 2 ^ 16) (2 ^ 15))) [
  | inl small ↦ rw small (omega arith)
  | inr large ↦ rw large (omega arith)
]

pub cut-bit : (flags : ℕ) → promisc_bit (flags % 2 ^ 16) ≡ promisc_bit flags
cut-bit flags = omega arith

pub with-bit : (flags : ℕ) → promisc_bit flags ≡ 0 → promisc_bit (with_promisc flags) ≡ 1
with-bit flags off = rw off (omega arith)

pub without-bit : (flags : ℕ) → promisc_bit (without_promisc flags) ≡ 0
without-bit flags = omega arith

module _ {W : Type 0} {calls : IfCalls W} {devname : List ℕ} (laws : ModeLaws calls devname) where
  -- Reading fails, or returns flags that tell the mode; the mode stays as it is.
  pub read-cases :
      (w : W)
      → (w' : W) × (laws.mode w' ≡ laws.mode w)
        × ((nethuns_ioctl_if calls w devname none ≡ (err tt, w'))
            ⊎ ((flags : ℕ) × (nethuns_ioctl_if calls w devname none ≡ (ok (some flags), w'))
                × (promisc_bit flags ≡ laws.mode w)))
  unfolding nethuns_ioctl_if ioctl_on ioctl_read
  read-cases w = by_socket (calls.open_socket w) refl
    where
      by_flags :
          (w1 : W) (r : Option ℕ × W)
          → laws.mode w1 ≡ laws.mode w
          → calls.get_flags w1 (take 15 devname) ≡ r
          → (w' : W) × (laws.mode w' ≡ laws.mode w)
            × ((ioctl_read calls r ≡ (err tt, w'))
                ⊎ ((flags : ℕ) × (ioctl_read calls r ≡ (ok (some flags), w'))
                    × (promisc_bit flags ≡ laws.mode w)))
      by_flags w1 (none, w2) kept e =
          (w2, sym (ap (λ r. laws.mode (r.1)) e) ∙ laws.get_keeps w1 ∙ kept, inl refl)
      by_flags w1 (some flags, w2) kept e = (
        w2,
        sym (ap (λ r. laws.mode (r.1)) e) ∙ laws.get_keeps w1 ∙ kept,
        inr (
          widen (flags % 2 ^ 16),
          refl,
          widen-bit flags ∙ laws.get_reads w1 flags (ap (λ r. r.0) e) ∙ kept,
        ),
      )

      by_socket :
          (r : Bool × W)
          → calls.open_socket w ≡ r
          → (w' : W) × (laws.mode w' ≡ laws.mode w)
            × ((ioctl_on calls (take 15 devname) none r ≡ (err tt, w'))
                ⊎ ((flags : ℕ) × (ioctl_on calls (take 15 devname) none r ≡ (ok (some flags), w'))
                    × (promisc_bit flags ≡ laws.mode w)))
      by_socket (false, w1) e =
          (w1, sym (ap (λ r. laws.mode (r.1)) e) ∙ laws.open_keeps w, inl refl)
      by_socket (true, w1) e =
          by_flags w1 (calls.get_flags w1 (take 15 devname))
            (sym (ap (λ r. laws.mode (r.1)) e) ∙ laws.open_keeps w) refl

  -- Setting fails and the mode stays as it is, or the mode is that of the flags.
  pub set-cases :
      (w : W) (flags : ℕ)
      → (w' : W) × (((nethuns_ioctl_if calls w devname (some flags) ≡ (err tt, w'))
            × (laws.mode w' ≡ laws.mode w))
          ⊎ ((nethuns_ioctl_if calls w devname (some flags) ≡ (ok none, w'))
              × (laws.mode w' ≡ promisc_bit flags)))
  unfolding nethuns_ioctl_if ioctl_on ioctl_end
  set-cases w flags = by_socket (calls.open_socket w) refl
    where
      by_set :
          (w1 : W) (r : Bool × W)
          → laws.mode w1 ≡ laws.mode w
          → calls.set_flags w1 (take 15 devname) (flags % 2 ^ 16) ≡ r
          → (w' : W) × (((ioctl_end calls none r ≡ (err tt, w')) × (laws.mode w' ≡ laws.mode w))
              ⊎ ((ioctl_end calls none r ≡ (ok none, w')) × (laws.mode w' ≡ promisc_bit flags)))
      by_set w1 (false, w2) kept e = (
        w2,
        inl (
          refl,
          sym (ap (λ r. laws.mode (r.1)) e)
              ∙ laws.set_failed w1 (flags % 2 ^ 16) (ap (λ r. r.0) e)
              ∙ kept,
        ),
      )
      by_set w1 (true, w2) kept e = (
        w2,
        inr (
          refl,
          sym (ap (λ r. laws.mode (r.1)) e)
              ∙ laws.set_done w1 (flags % 2 ^ 16) (ap (λ r. r.0) e)
              ∙ cut-bit flags,
        ),
      )

      by_socket :
          (r : Bool × W)
          → calls.open_socket w ≡ r
          → (w' : W) × (((ioctl_on calls (take 15 devname) (some flags) r ≡ (err tt, w'))
                × (laws.mode w' ≡ laws.mode w))
              ⊎ ((ioctl_on calls (take 15 devname) (some flags) r ≡ (ok none, w'))
                  × (laws.mode w' ≡ promisc_bit flags)))
      by_socket (false, w1) e =
          (w1, inl (refl, sym (ap (λ r. laws.mode (r.1)) e) ∙ laws.open_keeps w))
      by_socket (true, w1) e =
          by_set w1 (calls.set_flags w1 (take 15 devname) (flags % 2 ^ 16))
            (sym (ap (λ r. laws.mode (r.1)) e) ∙ laws.open_keeps w) refl
