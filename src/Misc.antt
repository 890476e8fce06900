-- ===== src/Misc.antt =====
-- src/misc.rs and src/global.rs: the name of a device, and the promiscuous mode of an interface,
-- which the sockets of the process share through a count of its users.
pub mod Mode
pub mod Counted
pub mod Users
pub mod Sharing
use rust_nethuns.Common.{
  ℕ, ◌+◌, ◌-◌, ◌*◌, ◌/◌, ◌%◌, ◌^◌, ◌==◌, Bool, true, false, ◌&&◌, ◌||◌, Option, none, some, List,
  [], ◌∷◌, ◌++◌, take, leb, ltb, if◌then◌else◌, Result, ok, err,
}
use rust_nethuns.Types.{NethunsQueue, any, queue}

-- `nethuns_dev_queue_name`, with the decimal print of a number
unfoldable pub nethuns_dev_queue_name : (ℕ → List ℕ) → Option (List ℕ) → NethunsQueue → List ℕ
nethuns_dev_queue_name print none q = b'u' ∷ b'n' ∷ b's' ∷ b'p' ∷ b'e' ∷ b'c' ∷ []
nethuns_dev_queue_name print (some dev) (queue idx) = dev ++ (b':' ∷ print idx)
nethuns_dev_queue_name print (some dev) any = dev

-- An `i32` is a number below 2 ^ 32 that stands for its two's complement.
pub record NethunsNetInfo : Type 0 where
  pub promisc_refcnt : ℕ
  pub xdp_prog_refcnt : ℕ
  pub xdp_prog_id : ℕ

abbrev pub default_info : NethunsNetInfo
default_info = record { promisc_refcnt = 0; xdp_prog_refcnt = 0; xdp_prog_id = 0 }

abbrev pub inc_i32 : ℕ → ℕ
inc_i32 n = (n + 1) % 2 ^ 32

abbrev pub dec_i32 : ℕ → ℕ
dec_i32 n = (n + 2 ^ 32 - 1) % 2 ^ 32

-- `n <= 0`
abbrev pub not_positive : ℕ → Bool
not_positive n = if n == 0 then true else leb (2 ^ 31) n

abbrev pub NetGlobal : Type 0
NetGlobal = List (List ℕ × NethunsNetInfo)

unfoldable pub same_text : List ℕ → List ℕ → Bool
same_text [] [] = true
same_text [] (y ∷ ys) = false
same_text (x ∷ xs) [] = false
same_text (x ∷ xs) (y ∷ ys) = if x == y then same_text xs ys else false

-- `get_mut` of the map, and what is stored under a name.
unfoldable pub get_info : NetGlobal → List ℕ → Option NethunsNetInfo
unfolding same_text
get_info [] name = none
get_info ((key, info) ∷ global) name =
    if same_text key name then some info else get_info global name

unfoldable pub put_info : NetGlobal → List ℕ → NethunsNetInfo → NetGlobal
unfolding same_text
put_info [] name info = (name, info) ∷ []
put_info ((key, old) ∷ global) name info =
    if same_text key name then (key, info) ∷ global else (key, old) ∷ put_info global name info

-- The system calls on interfaces, from a state `W` of the system: a socket for them, and the 16-bit
-- flag word of an interface, read and written.
pub record IfCalls (W : Type 0) : Type 0 where
  pub open_socket : W → Bool × W
  pub get_flags : W → List ℕ → Option ℕ × W
  pub set_flags : W → List ℕ → ℕ → Bool × W

-- A process on a system: the map of the interfaces, and whether the lock on it is poisoned.
pub record Process (W : Type 0) : Type 0 where
  pub global : NetGlobal
  pub poisoned : Bool
  pub system : W

-- `as u32` of a `c_short`
abbrev pub widen : ℕ → ℕ
widen x = if ltb x (2 ^ 15) then x else x + (2 ^ 32 - 2 ^ 16)

-- Bit 8 of a flag word, `IFF_PROMISC`.
abbrev pub promisc_bit : ℕ → ℕ
promisc_bit flags = flags / 256 % 2

abbrev pub with_promisc : ℕ → ℕ
with_promisc flags = flags + 256 * (1 - promisc_bit flags)

abbrev pub without_promisc : ℕ → ℕ
without_promisc flags = flags - 256 * promisc_bit flags

module _ {W : Type 0} (calls : IfCalls W) where
  ioctl_end : Option ℕ → Bool × W → Result (Option ℕ) (Unit {0}) × W
  ioctl_end res (true, w) = (ok res, w)
  ioctl_end res (false, w) = (err tt, w)

  ioctl_read : Option ℕ × W → Result (Option ℕ) (Unit {0}) × W
  ioctl_read (none, w) = (err tt, w)
  ioctl_read (some flags, w) = (ok (some (widen (flags % 2 ^ 16))), w)

  ioctl_on : List ℕ → Option ℕ → Bool × W → Result (Option ℕ) (Unit {0}) × W
  unfolding ioctl_end ioctl_read
  ioctl_on name flags (false, w) = (err tt, w)
  ioctl_on name none (true, w) = ioctl_read (calls.get_flags w name)
  ioctl_on name (some flags) (true, w) = ioctl_end none (calls.set_flags w name (flags % 2 ^ 16))

  -- The name is cut to 15 bytes, the flags to 16 bits.
  unfoldable pub nethuns_ioctl_if : W → List ℕ → Option ℕ → Result (Option ℕ) (Unit {0}) × W
  unfolding ioctl_on
  nethuns_ioctl_if w devname flags = ioctl_on (take 15 devname) flags (calls.open_socket w)

-- The information on an interface. If there is none yet, a mode that is set counts as a user.
unfoldable pub info_for : Option NethunsNetInfo → ℕ → NethunsNetInfo
info_for none flags = record default_info { promisc_refcnt = promisc_bit flags }
info_for (some info) flags = info

abbrev pub Done : Type 0 → Type 0
Done W = Result (Unit {0}) (Unit {0}) × Process W

module _ {W : Type 0} where
  abbrev pub on_system : Process W → W → Process W
  on_system s w = record s { system = w }

  abbrev pub store_info : Process W → List ℕ → NethunsNetInfo → ℕ → Process W
  store_info s devname info refcnt = record s {
    global = put_info s.global devname (record info { promisc_refcnt = refcnt });
  }

  -- The result of setting flags, with the process after a failure and after a success.
  unfoldable pub flags_set : Process W → Process W → Result (Option ℕ) (Unit {0}) × W → Done W
  flags_set failed done (err e, w) = (err e, on_system failed w)
  flags_set failed done (ok res, w) = (ok tt, on_system done w)

  -- What follows reading the flags: `none` is the panic on flags that are missing.
  unfoldable pub flags_read :
      Process W → (ℕ → Process W → Done W) → Result (Option ℕ) (Unit {0}) × W → Option (Done W)
  flags_read s next (err e, w) = some (err e, on_system s w)
  flags_read s next (ok none, w) = none
  flags_read s next (ok (some flags), w) = some (next flags (on_system s w))

module _ {W : Type 0} (calls : IfCalls W) where
  -- `nethuns_set_if_promisc`, with the flags at hand.
  unfoldable pub set_promisc : List ℕ → ℕ → Process W → Done W
  unfolding get_info info_for flags_set
  set_promisc devname flags s =
      if s.poisoned
      then (ok tt, s)
      else (let info = info_for (get_info s.global devname) flags in
          let counted = store_info s devname info (inc_i32 info.promisc_refcnt) in
          if promisc_bit flags == 0
          then flags_set (store_info s devname info (dec_i32 (inc_i32 info.promisc_refcnt))) counted
              (nethuns_ioctl_if calls s.system devname (some (with_promisc flags)))
          else (ok tt, counted))

  unfoldable pub nethuns_set_if_promisc : Process W → List ℕ → Option (Done W)
  unfolding flags_read set_promisc
  nethuns_set_if_promisc s devname =
      flags_read s (set_promisc devname) (nethuns_ioctl_if calls s.system devname none)

  -- `nethuns_clear_if_promisc`, with the flags and the information on the interface at hand.
  unfoldable pub drop_user : List ℕ → ℕ → Process W → Option NethunsNetInfo → Done W
  unfolding flags_set
  drop_user devname flags s none = (ok tt, s)
  drop_user devname flags s (some info) =
      let left = dec_i32 info.promisc_refcnt in
      let counted = store_info s devname info left in
      if not_positive left
      then flags_set counted counted
          (nethuns_ioctl_if calls s.system devname (some (without_promisc flags)))
      else (ok tt, counted)

  unfoldable pub clear_promisc : List ℕ → ℕ → Process W → Done W
  unfolding get_info drop_user
  clear_promisc devname flags s =
      if s.poisoned then (ok tt, s) else drop_user devname flags s (get_info s.global devname)

  unfoldable pub nethuns_clear_if_promisc : Process W → List ℕ → Option (Done W)
  unfolding flags_read clear_promisc
  nethuns_clear_if_promisc s devname =
      flags_read s (clear_promisc devname) (nethuns_ioctl_if calls s.system devname none)
