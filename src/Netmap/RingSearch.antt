-- ===== src/Netmap/RingSearch.antt =====
-- `non_empty_rx_ring` of src/sockets/api/netmap/utility.rs: a round over the reception rings that
-- starts where the last search ended.
use rust_nethuns.Common.{
  ℕ, zero, suc, ◌+◌, ◌-◌, ◌==◌, ◌≤◌, ◌<◌, ◌≡◌, ◌⊎◌, refl, Bool, true, false, Option, none, some,
  eq→==, ne→==, Bool-cases, inl, inr, ◌∙◌, if◌then◌else◌, Result, ok, err, arith, List, [], ◌∷◌,
  ◌++◌, length, get_elem?, get_elem?_in,
}
use rust_nethuns.Errors.{NethunsRecvError}
use rust_nethuns.Netmap.{NmPortDescriptor}
use rust_nethuns.Netmap.Utility.{next_ring, has_packets, search_from, non_empty_rx_ring}

-- The search stands within the rings of the port.
pub record IsSearchable (d : NmPortDescriptor) : Type 0 where
  pub first_le : d.first_rx_ring ≤ d.cur_rx_ring
  pub le_last : d.cur_rx_ring ≤ d.last_rx_ring
  pub in_bounds : d.last_rx_ring < length d.nifp.rx_rings

-- The `n` indices from `i` on.
pub count_up : ℕ → ℕ → List ℕ
count_up i zero = []
count_up i (suc n) = i ∷ count_up (i + 1) n

-- The order of the search: from the current ring to the last, then from the first to the one
-- before the current ring.
pub search_order : NmPortDescriptor → List ℕ
unfolding count_up
search_order d =
    count_up d.cur_rx_ring (suc d.last_rx_ring - d.cur_rx_ring)
    ++ count_up d.first_rx_ring (d.cur_rx_ring - d.first_rx_ring)

pub ring_has_packets : NmPortDescriptor → ℕ → Bool
ring_has_packets d i = elim (get_elem? d.nifp.rx_rings i) [ none ↦ false | some r ↦ has_packets r ]

-- The first index of the list whose ring has packets becomes the current one.
pub first_with_packets : NmPortDescriptor → List ℕ → Result ℕ NethunsRecvError × NmPortDescriptor
unfolding ring_has_packets
first_with_packets d [] = (err NethunsRecvError.no_packets_available, d)
first_with_packets d (i ∷ is) =
    let rest = first_with_packets d is in
    if ring_has_packets d i then (ok i, record d { cur_rx_ring = i }) else rest

module _ (d : NmPortDescriptor) (v : IsSearchable d) where
  -- What the search answers if the current round fails and the next one is at `next`.
  abbrev go_on : ℕ → ℕ → Option (Result ℕ NethunsRecvError × NmPortDescriptor)
  go_on fuel next =
      if next == d.cur_rx_ring
      then some (err NethunsRecvError.no_packets_available, d)
      else search_from fuel d next

  round_hit :
      (fuel ri : ℕ)
      → ri ≤ d.last_rx_ring
      → ring_has_packets d ri ≡ true
      → search_from (suc fuel) d ri ≡ some (ok ri, record d { cur_rx_ring = ri })
  unfolding search_from ring_has_packets
  round_hit fuel ri h hit =
      let (ring, e) = get_elem?_in d.nifp.rx_rings ri (omega (arith, v.in_bounds)) in ground arith

  round_miss :
      (fuel ri next : ℕ)
      → ri ≤ d.last_rx_ring
      → ring_has_packets d ri ≡ false
      → next_ring d ri ≡ next
      → search_from (suc fuel) d ri ≡ go_on fuel next
  unfolding search_from ring_has_packets
  round_miss fuel ri next h miss e =
      let (ring, e') = get_elem?_in d.nifp.rx_rings ri (omega (arith, v.in_bounds)) in
      rw (← e) (ground arith)

  one_round :
      (fuel ri next : ℕ) (is : List ℕ)
      → ri ≤ d.last_rx_ring
      → next_ring d ri ≡ next
      → go_on fuel next ≡ some (first_with_packets d is)
      → search_from (suc fuel) d ri ≡ some (first_with_packets d (ri ∷ is))
  unfolding first_with_packets
  one_round fuel ri next is h n e = elim (Bool-cases (ring_has_packets d ri)) [
    | inl hit ↦ round_hit fuel ri h hit ∙ rw hit refl
    | inr miss ↦ round_miss fuel ri next h miss n ∙ e ∙ rw miss refl
  ]

  -- After the search has gone back to the first ring: `next` is on the way to the current one.
  wrapped :
      (n fuel next : ℕ)
      → next + n ≡ d.cur_rx_ring
      → n ≤ fuel
      → go_on fuel next ≡ some (first_with_packets d (count_up next n))
  unfolding first_with_packets count_up
  wrapped zero fuel next e h = rw (eq→== next d.cur_rx_ring (omega arith)) refl
  wrapped (suc n) zero next e h = elim h [ ]
  wrapped (suc n) (suc fuel) next e h = rw (ne→== next d.cur_rx_ring (omega arith)) (
      one_round fuel next (next + 1) (count_up (next + 1) n) (omega (arith, v.le_last))
        (ground (arith, v.le_last)) (wrapped n fuel (next + 1) (omega arith) (omega arith)))

  -- Before that: `ri` is on the way to the last ring.
  ahead :
      (n fuel ri : ℕ)
      → d.cur_rx_ring ≤ ri
      → ri + n ≡ d.last_rx_ring
      → n + (d.cur_rx_ring - d.first_rx_ring) ≤ fuel
      → search_from (suc fuel) d ri
        ≡ some (
            first_with_packets d
              (count_up ri (suc n) ++ count_up d.first_rx_ring (d.cur_rx_ring - d.first_rx_ring)))
  unfolding count_up
  ahead zero fuel ri l e h = one_round fuel ri d.first_rx_ring _ (omega arith) (ground arith) (
      wrapped (d.cur_rx_ring - d.first_rx_ring) fuel d.first_rx_ring (omega (arith, v.first_le))
        (omega arith))
  ahead (suc n) zero ri l e h = absurd (omega arith)
  ahead (suc n) (suc fuel) ri l e h =
      one_round (suc fuel) ri (ri + 1) _ (omega arith) (ground arith) (
        rw (ne→== (ri + 1) d.cur_rx_ring (omega arith))
          (ahead n fuel (ri + 1) (omega arith) (omega arith) (omega arith)))

  -- The search ends without a panic. It finds the first ring with packets in its cyclic order, which
  -- becomes the current ring; if no ring has packets it fails and leaves the port as it was.
  pub non_empty_rx_ring_lem : non_empty_rx_ring d ≡ some (first_with_packets d (search_order d))
  unfolding non_empty_rx_ring search_order
  non_empty_rx_ring_lem =
      rw (enough, length_ahead)
        (ahead (d.last_rx_ring - d.cur_rx_ring) (d.last_rx_ring - d.first_rx_ring) d.cur_rx_ring
          (omega arith) (omega (arith, v.le_last)) (omega (arith, v.le_last, v.first_le)))
    where
      enough : suc d.last_rx_ring - d.first_rx_ring ≡ suc (d.last_rx_ring - d.first_rx_ring)
      enough = omega (arith, v.le_last, v.first_le)

      length_ahead : suc d.last_rx_ring - d.cur_rx_ring ≡ suc (d.last_rx_ring - d.cur_rx_ring)
      length_ahead = omega (arith, v.le_last)

-- The indices of a list are those of reception rings of the port.
abbrev AreRings : NmPortDescriptor → List ℕ → Type 0
AreRings d [] = Unit
AreRings d (i ∷ is) = (d.first_rx_ring ≤ i) × (i ≤ d.last_rx_ring) × AreRings d is

count_up-AreRings :
    (d : NmPortDescriptor) (n i : ℕ)
    → d.first_rx_ring ≤ i
    → i + n ≤ suc d.last_rx_ring
    → AreRings d (count_up i n)
unfolding count_up
count_up-AreRings d zero i f l = tt
count_up-AreRings d (suc n) i f l =
    (f, omega arith, count_up-AreRings d n (i + 1) (omega arith) (omega arith))

append-AreRings :
    (d : NmPortDescriptor) (is js : List ℕ) → AreRings d is → AreRings d js → AreRings d (is ++ js)
append-AreRings d [] js f g = g
append-AreRings d (i ∷ is) js f g = (f.0, f.1, append-AreRings d is js f.2 g)

-- A search fails and changes nothing, or stops at a ring of the port that has packets.
abbrev pub Searched : NmPortDescriptor → Result ℕ NethunsRecvError × NmPortDescriptor → Type 0
Searched d out =
    (out ≡ (err NethunsRecvError.no_packets_available, d))
    ⊎ ((i : ℕ) × (out ≡ (ok i, record d { cur_rx_ring = i }))
        × (d.first_rx_ring ≤ i)
        × (i ≤ d.last_rx_ring)
        × (ring_has_packets d i ≡ true))

first_with_packets-Searched :
    (d : NmPortDescriptor) (is : List ℕ) → AreRings d is → Searched d (first_with_packets d is)
unfolding first_with_packets
first_with_packets-Searched d [] a = inl refl
first_with_packets-Searched d (i ∷ is) a = elim (Bool-cases (ring_has_packets d i)) [
  | inl hit ↦ inr (i, rw hit, a.0, a.1, hit)
  | inr miss ↦ rw miss (first_with_packets-Searched d is a.2)
]

pub non_empty_rx_ring-Searched :
    (d : NmPortDescriptor)
    → IsSearchable d
    → (out : Result ℕ NethunsRecvError × NmPortDescriptor) × (non_empty_rx_ring d ≡ some out)
      × Searched d out
unfolding search_order
non_empty_rx_ring-Searched d v = (
  first_with_packets d (search_order d),
  non_empty_rx_ring_lem d v,
  first_with_packets-Searched d _ (
      append-AreRings d _ _
        (count_up-AreRings d (suc d.last_rx_ring - d.cur_rx_ring) d.cur_rx_ring v.first_le
          (omega (arith, v.le_last)))
        (count_up-AreRings d (d.cur_rx_ring - d.first_rx_ring) d.first_rx_ring (omega arith)
          (omega (arith, v.le_last, v.first_le)))),
)
