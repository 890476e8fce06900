-- ===== src/Examples/Slots.antt =====
-- Runs of src/sockets/ring.rs: a ring of four slots, of which one is taken.
use rust_nethuns.Common.{◌≡◌, refl, Bool, false, some, [], ◌∷◌, arith}
use rust_nethuns.CircularQueue.Valid.{IsShaped}
use rust_nethuns.Pkthdr.{default_pkthdr}
use rust_nethuns.Ring.{free, in_use, NethunsRingSlot, NethunsRing, nethuns_send_slot, get_slot}
use rust_nethuns.Ring.SendSlot.{nethuns_send_slot_lem}

abbrev idle : NethunsRingSlot
idle = record {
  status = free;
  pkthdr = default_pkthdr;
  id = 0;
  len = 0;
  packet = 0 ∷ 0 ∷ 0 ∷ 0 ∷ [];
}

abbrev busy : NethunsRingSlot
busy = record idle { status = in_use }

abbrev ring : NethunsRing
ring = record {
  pktsize = 4;
  rings = record {
    buffer = idle ∷ idle ∷ busy ∷ idle ∷ [];
    head = 3;
    tail = 2;
    mask = 3;
    num_items = 4;
  };
}

ring-IsShaped : IsShaped 2 ring.rings
ring-IsShaped = record {
  few_bits = omega arith;
  mask_eq = refl;
  length_eq = refl;
  head_lt = omega arith;
  tail_lt = omega arith;
  some_items = omega arith;
  items_le = omega arith;
}

nethuns_send_slot_example :
    (done : Bool) × (r' : NethunsRing) × (nethuns_send_slot ring 5 60 ≡ some (done, r'))
    × (nethuns_send_slot r' 5 61 ≡ some (false, r'))
    × (get_slot r' 2 ≡ get_slot ring 2)
    × IsShaped 2 r'.rings
nethuns_send_slot_example = nethuns_send_slot_lem ring ring-IsShaped 5 60 61 2 (omega arith)
