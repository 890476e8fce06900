-- ===== src/Netmap/Bind.antt =====
-- `open` and `bind` of src/sockets/api/netmap/bindable_socket.rs. Texts are lists of bytes.
pub mod Modes
pub mod Pool
use rust_nethuns.Common.{
  ℕ, zero, suc, ◌+◌, ◌*◌, ◌/◌, ◌%◌, ◌^◌, ◌==◌, Bool, true, false, not, ◌&&◌, ◌||◌, Option, none,
  some, List, [], ◌∷◌, ◌++◌, if◌then◌else◌, ◌>>=◌, Result, ok, err,
}
use rust_nethuns.CircularQueue.{CircularQueue}
use rust_nethuns.CircularQueue
use rust_nethuns.Ring.{NethunsRing}
use rust_nethuns.Ring
use rust_nethuns.Types.{
  NethunsQueue, any, queue, NethunsSocketMode, rx_tx, rx_only, tx_only, NethunsSocketOptions,
}
use rust_nethuns.Errors.{NethunsOpenError, NethunsBindError}
use rust_nethuns.Netmap.{
  NetmapIf, NmPortDescriptor, NethunsSocketBase, NethunsSocketNetmap, netmap_rxring, rx, tx,
}
use rust_nethuns.Netmap.FreeList.{fill_tx_ring, fill_free_ring}
use rust_nethuns.Misc.{IfCalls, Process, Done, nethuns_set_if_promisc}

unfoldable pub wants_rx : NethunsSocketMode → Bool
wants_rx rx_tx = true
wants_rx rx_only = true
wants_rx tx_only = false

unfoldable pub wants_tx : NethunsSocketMode → Bool
wants_tx rx_tx = true
wants_tx rx_only = false
wants_tx tx_only = true

-- A ring if it is wanted. The product is of 32 bits and wraps in a release build.
unfoldable pub make_ring : Bool → NethunsSocketOptions → Option (Option NethunsRing)
unfolding Ring.new
make_ring false opt = some none
make_ring true opt = do
  r ← Ring.new (opt.numblocks * opt.numpackets % 2 ^ 32) opt.packetsize
  some (some r)

-- `NethunsSocketBase` with its two rings, and defaults elsewhere.
abbrev pub base_with :
    NethunsSocketOptions → Option NethunsRing → Option NethunsRing → NethunsSocketBase
base_with opt tx_ring rx_ring = record {
  opt = opt;
  tx_ring = tx_ring;
  rx_ring = rx_ring;
  devname = [];
  queue = any;
  ifindex = 0;
  filter = none;
}

-- `none` is the panic of a ring of no slots.
unfoldable pub open_socket :
    NethunsSocketOptions → Option (Result NethunsSocketBase NethunsOpenError)
unfolding wants_rx wants_tx make_ring
open_socket opt =
    if not (wants_rx opt.mode) && not (wants_tx opt.mode)
    then some (err NethunsOpenError.invalid_options)
    else (do
      rx_ring ← make_ring (wants_rx opt.mode) opt
      tx_ring ← make_ring (wants_tx opt.mode) opt
      some (ok (base_with opt tx_ring rx_ring)))

-- What `bind` takes from outside the repository, beside the calls of `IfCalls`: the port library, the
-- conversions of texts, and the number of an interface.
pub record BindApi : Type 0 where
  -- the decimal text of a number
  pub decimal : ℕ → List ℕ
  -- `NmPortDescriptor::prepare`
  pub prepare : List ℕ → Option NmPortDescriptor
  -- `open_desc` for a number of extra buffers: the number that was granted, and the open port
  pub open_desc : NmPortDescriptor → ℕ → Option (ℕ × NmPortDescriptor)
  -- `if_nametoindex`
  pub if_nametoindex : List ℕ → ℕ

-- `CString::new` refuses a text with a zero byte.
unfoldable pub has_nul : List ℕ → Bool
has_nul [] = false
has_nul (c ∷ cs) = c == 0 || has_nul cs

-- `dev.starts_with("vale")`
unfoldable pub is_vale : List ℕ → Bool
is_vale (a ∷ b ∷ c ∷ d ∷ rest) = a == b'v' && b == b'a' && c == b'l' && d == b'e'
is_vale _ = false

abbrev pub netmap_prefix : List ℕ
netmap_prefix = b'n' ∷ b'e' ∷ b't' ∷ b'm' ∷ b'a' ∷ b'p' ∷ b':' ∷ []

-- The flags of the port name: `/R`, `/T` or none.
unfoldable pub mode_flags : NethunsSocketBase → List ℕ
unfolding rx tx
mode_flags base =
    if not (tx base) then b'/' ∷ b'R' ∷ [] else (if not (rx base) then b'/' ∷ b'T' ∷ [] else [])

-- The first part of `bind`: the name of the netmap port.
unfoldable pub port_name : (ℕ → List ℕ) → NethunsSocketBase → List ℕ → NethunsQueue → List ℕ
unfolding is_vale mode_flags
port_name decimal base dev any =
    (if is_vale dev then [] else netmap_prefix) ++ (dev ++ mode_flags base)
port_name decimal base dev (queue idx) =
    (if is_vale dev then [] else netmap_prefix)
    ++ (dev ++ ((if is_vale dev then b':' ∷ [] else b'-' ∷ []) ++ (decimal idx ++ mode_flags base)))

-- The number of extra buffers that `bind` asks for.
unfoldable pub ring_size : Option NethunsRing → ℕ
unfolding Ring.size
ring_size none = 0
ring_size (some r) = Ring.size r % 2 ^ 32

unfoldable pub extra_bufs : NethunsSocketBase → ℕ
unfolding ring_size rx tx
extra_bufs base =
    ((if tx base then ring_size base.rx_ring else 0)
      + (if rx base then ring_size base.tx_ring else 0))
    % 2 ^ 32

-- The transmission slots take the first buffers of the list; the result is the index after them.
unfoldable pub fill_tx : NetmapIf → Option NethunsRing → Option (Option NethunsRing × ℕ)
unfolding fill_tx_ring Ring.size
fill_tx nifp none = some (none, nifp.ni_bufs_head)
fill_tx nifp (some tx_ring) = do
  (tx_ring', scan) ← fill_tx_ring nifp (Ring.size tx_ring) 0 tx_ring nifp.ni_bufs_head
  some (some tx_ring', scan)

-- The free ring takes the rest, if the socket receives.
unfoldable pub fill_rx : Bool → NetmapIf → ℕ → CircularQueue ℕ → ℕ → Option (CircularQueue ℕ)
unfolding fill_free_ring
fill_rx false nifp fuel free_ring scan = some free_ring
fill_rx true nifp fuel free_ring scan = fill_free_ring nifp fuel free_ring scan

abbrev pub Bound : Type 0
Bound = Result NethunsSocketNetmap (NethunsBindError × NethunsSocketBase)

-- What `bind` returns, by whether the promiscuous mode was set.
unfoldable pub after_asked :
    Result (Unit {0}) (Unit {0}) → NethunsSocketNetmap → NethunsSocketBase → Bound
after_asked (ok _) s base = ok s
after_asked (err _) s base = err (NethunsBindError.error, base)

-- The promiscuous mode, if the options ask for it.
unfoldable pub ask_promisc : {W : Type 0} → IfCalls W → Bool → List ℕ → Process W → Option (Done W)
unfolding nethuns_set_if_promisc
ask_promisc calls false dev proc = some (ok tt, proc)
ask_promisc calls true dev proc = nethuns_set_if_promisc calls proc dev

module _ {W : Type 0} (calls : IfCalls W) (api : BindApi) where
  -- The end of `bind`: the buffers are dealt out, the list is cleared, the interface is set up.
  unfoldable pub deal_buffers :
      NethunsSocketBase
      → List ℕ
      → NethunsQueue
      → NmPortDescriptor
      → ℕ
      → ℕ
      → Process W
      → Option (Bound × Process W)
  unfolding fill_tx fill_rx CircularQueue.new rx ask_promisc after_asked
  deal_buffers base dev q d nr_buf_size granted proc = do
    free_ring ← CircularQueue.new granted (λ _. 0)
    (tx_ring, scan) ← fill_tx d.nifp base.tx_ring
    free_ring' ← fill_rx (rx base) d.nifp (suc granted) free_ring scan
    let base' = record base { tx_ring = tx_ring }
    (asked, proc') ← ask_promisc calls base.opt.promisc dev proc
    some (
      after_asked asked
          (record {
            base = record base' { devname = dev; queue = q; ifindex = api.if_nametoindex dev };
            p = record d { nifp = record (d.nifp) { ni_bufs_head = 0 } };
            nr_buf_size = nr_buf_size;
            free_ring = free_ring';
          })
          base',
      proc',
    )

  -- The middle of `bind`: the port is opened for the extra buffers, and its first ring is looked up.
  unfoldable pub open_port :
      NethunsSocketBase
      → List ℕ
      → NethunsQueue
      → NmPortDescriptor
      → Process W
      → Option (Bound × Process W)
  unfolding deal_buffers extra_bufs netmap_rxring rx
  open_port base dev q d proc = elim (api.open_desc d (extra_bufs base)) [
    | none ↦ some (err (NethunsBindError.framework_error, base), proc)
    | some (granted, d') ↦
        if granted == extra_bufs base
        then (do
          some_ring ← netmap_rxring d'.nifp (if rx base then d'.first_rx_ring else d'.first_tx_ring)
          deal_buffers base dev q d' some_ring.nr_buf_size granted proc)
        else some (err (NethunsBindError.framework_error, base), proc)
  ]

  unfoldable pub bind :
      NethunsSocketBase → List ℕ → NethunsQueue → Process W → Option (Bound × Process W)
  unfolding port_name has_nul open_port
  bind base dev q proc =
      if has_nul (port_name api.decimal base dev q) || has_nul dev
      then some (err (NethunsBindError.illegal_argument, base), proc)
      else elim (api.prepare (port_name api.decimal base dev q)) [
        | none ↦ some (err (NethunsBindError.framework_error, base), proc)
        | some d ↦ open_port base dev q d proc
      ]
