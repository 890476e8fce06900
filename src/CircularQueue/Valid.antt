-- ===== src/CircularQueue/Valid.antt =====
-- The invariant of the circular queue: the mask selects cells of the buffer.
use rust_nethuns.Common.{
  ℕ, ◌+◌, ◌-◌, ◌*◌, ◌%◌, ◌^◌, ◌≤◌, ◌<◌, ◌≡◌, ◌∙◌, refl, ap, arith, some, none, length, set,
  length-set, get_elem?_in, length-replicate, bit_and, lt→ltb, replicate,
}
use rust_nethuns.Common.Bits.{bit_and_mask}
use rust_nethuns.Common.Words.{usize_mod, sub_usize}
use native.Mathlib.Nat.{pow-le-pow_right, mod-lt, one-le-pow, mod-eq_of_lt}
use rust_nethuns.CircularQueue.{CircularQueue, new, size, get, set_at, advance_head, advance_tail}
use rust_nethuns.CircularQueue.NextPow.{next_power_of_two_lem}

-- The number of items between the head and the tail.
abbrev pub count {ℓ} : {A : Type ℓ} → CircularQueue A → ℕ
count q = sub_usize q.tail q.head

-- The mask selects the cells of the buffer, and the indices are machine words.
pub record IsShaped {ℓ} (bits : ℕ) {A : Type ℓ} (q : CircularQueue A) : Type 0 where
  pub few_bits : bits < 64
  pub mask_eq : q.mask ≡ 2 ^ bits - 1
  pub length_eq : length q.buffer ≡ 2 ^ bits
  pub head_lt : q.head < usize_mod
  pub tail_lt : q.tail < usize_mod
  pub some_items : 0 < q.num_items
  pub items_le : q.num_items ≤ 2 ^ bits

-- Besides, the items between the head and the tail fit the buffer.
pub record IsValid {ℓ} (bits : ℕ) {A : Type ℓ} (q : CircularQueue A) : Type 0 where
  pub shape : IsShaped bits q
  pub open shape use *
  pub count_le : count q ≤ 2 ^ bits

pub pow-lt-usize : {bits : ℕ} → bits < 64 → 2 ^ bits < usize_mod
pow-lt-usize {bits} h =
    omega (arith, pow-le-pow_right {n = 2} (omega arith) {i = bits} {j = 63} (omega arith))

module _ {ℓ} {A : Type ℓ} {bits : ℕ} {q : CircularQueue A} (v : IsShaped bits q) where
  pub index_eq : (i : ℕ) → bit_and i q.mask ≡ i % 2 ^ bits
  index_eq i = rw v.mask_eq (bit_and_mask bits i)

  pub index-lt : (i : ℕ) → bit_and i q.mask < length q.buffer
  index-lt i = rw (index_eq i, v.length_eq) (mod-lt i (omega (arith, one-le-pow bits 2)))

  -- A masked access is never out of bounds.
  pub get-some : (i : ℕ) → (a : A) × (get q i ≡ some a)
  unfolding get
  get-some i = get_elem?_in q.buffer (bit_and i q.mask) (index-lt i)

  pub set_at-some :
      (i : ℕ) (a : A)
      → set_at q i a ≡ some (record q { buffer = set q.buffer (bit_and i q.mask) a })
  unfolding set_at
  set_at-some i a = rw (lt→ltb _ _ (index-lt i))

  pub set_at-IsShaped :
      (i : ℕ) (a : A) → IsShaped bits (record q { buffer = set q.buffer (bit_and i q.mask) a })
  set_at-IsShaped i a = record {
    few_bits = v.few_bits;
    mask_eq = v.mask_eq;
    length_eq = length-set q.buffer _ a ∙ v.length_eq;
    head_lt = v.head_lt;
    tail_lt = v.tail_lt;
    some_items = v.some_items;
    items_le = v.items_le;
  }

  pub advance_head-IsShaped : IsShaped bits (advance_head q)
  unfolding advance_head
  advance_head-IsShaped = record {
    few_bits = v.few_bits;
    mask_eq = v.mask_eq;
    length_eq = v.length_eq;
    head_lt = omega arith;
    tail_lt = v.tail_lt;
    some_items = v.some_items;
    items_le = v.items_le;
  }

  pub advance_tail-IsShaped : IsShaped bits (advance_tail q)
  unfolding advance_tail
  advance_tail-IsShaped = record {
    few_bits = v.few_bits;
    mask_eq = v.mask_eq;
    length_eq = v.length_eq;
    head_lt = v.head_lt;
    tail_lt = omega arith;
    some_items = v.some_items;
    items_le = v.items_le;
  }

  pub size-eq-pow : size q ≡ 2 ^ bits
  unfolding size
  size-eq-pow = omega (
    arith,
    v.mask_eq,
    pow-lt-usize v.few_bits,
    one-le-pow bits 2,
    mod-eq_of_lt {n = q.mask + 1} {m = usize_mod},
  )

module _ {ℓ} {A : Type ℓ} (requested : ℕ) (generator : Unit {0} → A) where
  -- What `new` makes for a buffer of `2 ^ bits` items.
  abbrev pub fresh : ℕ → CircularQueue A
  fresh bits = record {
    buffer = replicate (2 ^ bits) (generator tt);
    head = 0;
    tail = 0;
    mask = 2 ^ bits - 1;
    num_items = requested;
  }

  -- For a request that fits, `new` makes a valid and empty queue of generated items, whose buffer
  -- is the least power of two that is large enough.
  pub new-IsValid :
      0 < requested
      → requested ≤ 2 ^ 63
      → (bits : ℕ) × (new requested generator ≡ some (fresh bits))
        × IsValid bits (fresh bits)
        × (2 ^ bits < 2 * requested)
  unfolding new
  new-IsValid pos h =
      let (j, e, few, above, below) = next_power_of_two_lem requested pos h in
      (
        j,
        rw (lt→ltb _ _ pos, e)
            (ap (λ (m : ℕ). some (record (fresh j) { mask = m }))
              (omega (arith, pow-lt-usize few, one-le-pow j 2))),
        record {
          shape = record {
            few_bits = few;
            mask_eq = refl;
            length_eq = length-replicate (2 ^ j) (generator tt);
            head_lt = omega arith;
            tail_lt = omega arith;
            some_items = pos;
            items_le = above;
          };
          count_le = omega arith;
        },
        below,
      )

  -- An empty request fails the assertion.
  pub new-zero : requested ≡ 0 → new requested generator ≡ none
  unfolding new
  new-zero e = rw e
