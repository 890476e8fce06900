-- ===== src/Examples/Modes.antt =====
-- A system of one interface, and two sockets that share its promiscuous mode (src/misc.rs).
use rust_nethuns.Common.{
  ℕ, ◌+◌, ◌<◌, ◌≡◌, ◌⊎◌, refl, sym, ap, true, false, some, List, [], ◌∷◌, arith,
}
use rust_nethuns.Misc.{IfCalls, Process, promisc_bit, get_info, nethuns_dev_queue_name}
use rust_nethuns.Types.{any, queue}
use rust_nethuns.Misc.Mode.{ModeLaws}
use rust_nethuns.Misc.Sharing.{join, leave, run, promisc_lem}

-- The state is the flag word of the interface, and every call succeeds.
abbrev pub one_interface : IfCalls ℕ
one_interface = record {
  open_socket = λ w. (true, w);
  get_flags = λ w name. (some w, w);
  set_flags = λ w name flags. (true, flags);
}

abbrev pub eth : List ℕ
eth = b'e' ∷ b't' ∷ b'h' ∷ []

unfoldable pub one-ModeLaws : ModeLaws one_interface eth
one-ModeLaws = record {
  mode = promisc_bit;
  mode_small = λ w. omega arith;
  open_keeps = λ w. refl;
  get_keeps = λ w. refl;
  get_reads = λ w flags e. ap promisc_bit (sym (some_inj e));
  set_done = λ w flags e. refl;
  set_failed = λ w flags e. absurd cc;
}
  where
    some_inj : {a b : ℕ} → some a ≡ some b → a ≡ b
    some_inj e = cc

abbrev pub at_first : Process ℕ
at_first = record { global = []; poisoned = false; system = 0x1043 }

promisc_example :
    (s' : Process ℕ) × (users' : ℕ) × (lost' : ℕ) × (run one_interface eth
        (join ∷ join ∷ leave ∷ leave ∷ [])
        at_first
        0
        0
      ≡ some (s', users', lost'))
    × ((users' ≡ 0) ⊎ (promisc_bit s'.system ≡ 1))
    × ((promisc_bit s'.system ≡ 0) ⊎ (0 < users' + lost'))
unfolding get_info one-ModeLaws
promisc_example =
    promisc_lem one-ModeLaws (join ∷ join ∷ leave ∷ leave ∷ []) at_first (omega arith) refl refl

-- Names of devices, where the only number is 7.
abbrev seven : ℕ → List ℕ
seven n = b'7' ∷ []

queue_name :
    nethuns_dev_queue_name seven (some eth) (queue 7) ≡ b'e' ∷ b't' ∷ b'h' ∷ b':' ∷ b'7' ∷ []
unfolding nethuns_dev_queue_name
queue_name = refl

any_name : nethuns_dev_queue_name seven (some eth) any ≡ eth
unfolding nethuns_dev_queue_name
any_name = refl
