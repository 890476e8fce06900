-- ===== src/CircularQueue/Refine.antt =====
-- The circular queue refines a list: `pop` takes the first item, `push` adds one at the end.
use rust_nethuns.Common.{
  ℕ, suc, ◌+◌, ◌-◌, ◌%◌, ◌^◌, ◌<◌, ◌≡◌, ◌∙◌, ◌↔◌, refl, sym, ap, subst, Bool-cases, inl, inr, arith,
  true, false, some, List, [], ◌∷◌, ◌++◌, length, get_elem?, set, get_elem?-set_self,
  get_elem?-set_ne, bit_and, leb, ◌==◌, length-append,
}
use rust_nethuns.Common.Bits.{bit_and_mask}
use rust_nethuns.Common.Words.{usize_mod, wrapping_inc, mod-usize-mod, add-mod-ne}
use native.Mathlib.Nat.{add-zero, mod-lt, mod-add-mod}
use rust_nethuns.CircularQueue.Fifo
use rust_nethuns.CircularQueue.{
  CircularQueue, is_empty, is_full, advance_head, advance_tail, pop_unchecked, clone_pop_unchecked,
  pop, push_unchecked, push,
}
use rust_nethuns.CircularQueue.Valid.{
  IsValid, count, set_at-some, set_at-IsShaped, advance_head-IsShaped, advance_tail-IsShaped,
  pow-lt-usize,
}

step-mod : (bits h n : ℕ) → bits < 64 → (wrapping_inc h + n) % 2 ^ bits ≡ (h + suc n) % 2 ^ bits
step-mod bits h n few = omega (
  arith,
  mod-add-mod (wrapping_inc h) (2 ^ bits) n,
  ap (λ (t : ℕ). (t + n) % 2 ^ bits) (mod-usize-mod bits (h + 1) (omega arith)),
  mod-add-mod (h + 1) (2 ^ bits) n,
  ap (λ (t : ℕ). t % 2 ^ bits) {x = h + 1 + n} {y = h + suc n} (omega arith),
)

module _ {ℓ} {A : Type ℓ} where
  -- The cells from index `h` on hold the items of the list.
  abbrev pub Window : List A → ℕ → ℕ → List A → Type ℓ
  Window buffer mask h [] = Unit
  Window buffer mask h (x ∷ xs) =
      (get_elem? buffer (bit_and h mask) ≡ some x) × Window buffer mask (wrapping_inc h) xs

  -- A valid queue whose items, oldest first, are those of the list.
  pub record Holds (bits : ℕ) (q : CircularQueue A) (xs : List A) : Type ℓ where
    pub valid : IsValid bits q
    pub counted : length xs ≡ count q
    pub items : Window q.buffer q.mask q.head xs

-- Writing the cell just past a window extends it by that item.
pub Window-set {ℓ} :
    {A : Type ℓ} (bits : ℕ) (buffer : List A) (v : A) (t h : ℕ) (xs : List A)
    → bits < 64
    → length buffer ≡ 2 ^ bits
    → length xs < 2 ^ bits
    → t % 2 ^ bits ≡ (h + length xs) % 2 ^ bits
    → Window buffer (2 ^ bits - 1) h xs
    → Window (set buffer (bit_and t (2 ^ bits - 1)) v) (2 ^ bits - 1) h (xs ++ v ∷ [])
Window-set bits buffer v t h [] few l n e w = (
  rw (bit_and_mask bits t, bit_and_mask bits h, e, add-zero)
      (get_elem?-set_self buffer (h % 2 ^ bits) v (rw l (mod-lt h (omega arith)))),
  tt,
)
Window-set bits buffer v t h (x ∷ xs) few l n e w = (
  get_elem?-set_ne buffer _ _ v (
        rw (bit_and_mask bits t, bit_and_mask bits h, e)
          (add-mod-ne (2 ^ bits) h (suc (length xs)) (omega arith) n))
      ∙ w.0,
  Window-set bits buffer v t (wrapping_inc h) xs few l (omega arith)
      (e ∙ sym (step-mod bits h (length xs) few)) w.1,
)

-- The queue after `push_unchecked`.
abbrev pub pushed {ℓ} : {A : Type ℓ} → CircularQueue A → A → CircularQueue A
pushed q x = record q {
  buffer = set q.buffer (bit_and q.tail q.mask) x;
  tail = wrapping_inc q.tail;
}

pub Window-prefix {ℓ} :
    {A : Type ℓ} (buffer : List A) (mask h : ℕ) (xs ys : List A)
    → Window buffer mask h (xs ++ ys)
    → Window buffer mask h xs
Window-prefix buffer mask h [] ys w = tt
Window-prefix buffer mask h (x ∷ xs) ys w =
    (w.0, Window-prefix buffer mask (wrapping_inc h) xs ys w.1)

module _ {ℓ} {A : Type ℓ} {bits : ℕ} {q : CircularQueue A} where
  tail_eq : IsValid bits q → q.tail ≡ (q.head + count q) % usize_mod
  tail_eq v = omega arith

  pushed-IsValid : (x : A) → IsValid bits q → count q < 2 ^ bits → IsValid bits (pushed q x)
  unfolding advance_tail
  pushed-IsValid x v room = record {
    shape = advance_tail-IsShaped (set_at-IsShaped v.shape q.tail x);
    count_le = omega (arith, pow-lt-usize v.few_bits);
  }

  -- `push_unchecked` adds the item at the end, if the buffer has a cell left.
  pub push_unchecked-Holds :
      {xs : List A} (x : A)
      → Holds bits q xs
      → length xs < 2 ^ bits
      → (push_unchecked q x ≡ some (pushed q x)) × Holds bits (pushed q x) (xs ++ x ∷ [])
  unfolding push_unchecked advance_tail
  push_unchecked-Holds {xs} x h room = (
    rw (set_at-some h.valid.shape q.tail x),
    record {
      valid = pushed-IsValid x h.valid (omega (arith, h.counted));
      counted = omega (arith, length-append xs (x ∷ []), h.counted, pow-lt-usize h.valid.few_bits);
      items =
          subst (λ m. Window (set q.buffer (bit_and q.tail m) x) m q.head (xs ++ x ∷ []))
            (sym h.valid.mask_eq)
            (Window-set bits q.buffer x q.tail q.head xs h.valid.few_bits h.valid.length_eq room
              position (subst (λ m. Window q.buffer m q.head xs) h.valid.mask_eq h.items));
    },
  )
    where
      position : q.tail % 2 ^ bits ≡ (q.head + length xs) % 2 ^ bits
      position = rw (
        h.counted,
        ← mod-usize-mod bits (q.head + count q) (omega (arith, h.valid.few_bits)),
        ← tail_eq h.valid,
      )

  -- `pop_unchecked` takes the oldest item.
  pub pop_unchecked-Holds :
      {x : A} {xs : List A}
      → Holds bits q (x ∷ xs)
      → (pop_unchecked q ≡ some (x, advance_head q)) × Holds bits (advance_head q) xs
  unfolding pop_unchecked advance_head
  pop_unchecked-Holds {x} {xs} h = (
    rw h.items.0,
    record {
      valid = record {
        shape = advance_head-IsShaped h.valid.shape;
        count_le = omega (arith, h.counted);
      };
      counted = omega (arith, h.counted);
      items = h.items.1;
    },
  )

  pub clone_pop_unchecked-Holds :
      {x : A} {xs : List A}
      → Holds bits q (x ∷ xs)
      → clone_pop_unchecked q ≡ some (x, advance_head q)
  unfolding clone_pop_unchecked
  clone_pop_unchecked-Holds h = rw h.items.0

  pub is_empty-nil : {xs : List A} → Holds bits q xs → (is_empty q ≡ true) ↔ (xs ≡ [])
  unfolding is_empty
  is_empty-nil {xs = []} h = (λ _. refl, λ _. ground (arith, tail_eq h.valid, h.counted))
  is_empty-nil {xs = x ∷ xs} h = (λ e. absurd (ground (arith, h.counted)), λ e. cc)

  pub is_empty-cons : {x : A} {xs : List A} → Holds bits q (x ∷ xs) → is_empty q ≡ false
  unfolding is_empty
  is_empty-cons h = ground (arith, h.counted)

  pub is_empty-count : {xs : List A} → Holds bits q xs → is_empty q ≡ (length xs == 0)
  unfolding is_empty
  is_empty-count {xs} h = ground (arith, tail_eq h.valid, h.counted)

  pub is_full-count : {xs : List A} → Holds bits q xs → is_full q ≡ leb q.num_items (length xs)
  unfolding is_full
  is_full-count {xs} h = rw h.counted

  -- `pop` returns what a list queue returns.
  pub pop_refines :
      {xs : List A}
      → Holds bits q xs
      → (q' : CircularQueue A) × (pop q ≡ some ((Fifo.pop xs).0, q'))
        × Holds bits q' (Fifo.pop xs).1
        × (q'.num_items ≡ q.num_items)
  unfolding pop advance_head Fifo.pop
  pop_refines {xs = []} h = (q, rw (is_empty-count h), h, refl)
  pop_refines {xs = x ∷ xs} h =
      let (e, h') = pop_unchecked-Holds h in (advance_head q, rw (is_empty-cons h, e), h', refl)

  -- `push` answers what a list queue of `num_items` items answers.
  pub push_refines :
      {xs : List A} (x : A)
      → Holds bits q xs
      → (q' : CircularQueue A) × (push q x ≡ some ((Fifo.push q.num_items xs x).0, q'))
        × Holds bits q' (Fifo.push q.num_items xs x).1
        × (q'.num_items ≡ q.num_items)
  unfolding push Fifo.push
  push_refines {xs} x h = elim (Bool-cases (leb q.num_items (length xs))) [
    | inl full ↦ (q, rw (is_full-count h, full), rw full h, refl)
    | inr room ↦
        let (e, h') = push_unchecked-Holds x h (ground (arith, h.valid.items_le)) in
        (pushed q x, rw (is_full-count h, room, e), rw room h', refl)
  ]
