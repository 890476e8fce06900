-- ===== src/Netmap/FreeList/Chains.antt =====
-- The list of extra buffers: giving buffers back in `drop` builds it, and `bind` reads it back.
use rust_nethuns.Common.{
  ℕ, zero, suc, ◌+◌, ◌^◌, ◌≤◌, ◌<◌, ◌≡◌, ◌≢◌, ◌∙◌, refl, ap, some, List, [], ◌∷◌, ◌++◌,
  append_assoc, append-nil, length, length-append, arith, eq→==, ne→==,
}
use rust_nethuns.CircularQueue.{CircularQueue}
use rust_nethuns.CircularQueue
use rust_nethuns.CircularQueue.Refine.{
  Holds, pushed, push_unchecked-Holds, pop_unchecked-Holds, clone_pop_unchecked-Holds,
  is_empty-count, is_empty-cons,
}
use rust_nethuns.Netmap.{NetmapIf, netmap_buf}
use rust_nethuns.Netmap.FreeList.{
  read_u32, write_u32, next_buf, release_buf, fill_free_ring, release_free_ring,
}

-- The list from index `scan` on holds exactly these buffers.
abbrev pub Chain : NetmapIf → ℕ → List ℕ → Type 0
Chain nifp scan [] = scan ≡ 0
Chain nifp scan (x ∷ xs) = (scan ≡ x) × (x ≢ 0) × Chain nifp (next_buf nifp x) xs

-- A buffer index is not 0, fits 32 bits, and its buffer has room for a link.
abbrev pub IsBuffer : NetmapIf → ℕ → Type 0
IsBuffer nifp x = (0 < x) × (x < 2 ^ 32) × (4 ≤ length (netmap_buf nifp x))

-- `x` is none of the list.
abbrev pub Fresh : ℕ → List ℕ → Type 0
Fresh x [] = Unit
Fresh x (y ∷ ys) = (x ≢ y) × Fresh x ys

-- A link is read back as it was written.
pub read_u32-write_u32 :
    (bytes : List ℕ) (v : ℕ) → 4 ≤ length bytes → v < 2 ^ 32 → read_u32 (write_u32 bytes v) ≡ v
unfolding read_u32 write_u32
read_u32-write_u32 (a ∷ b ∷ c ∷ d ∷ rest) v l h = omega arith
read_u32-write_u32 [] v l h = absurd (omega arith)
read_u32-write_u32 (a ∷ []) v l h = absurd (omega arith)
read_u32-write_u32 (a ∷ b ∷ []) v l h = absurd (omega arith)
read_u32-write_u32 (a ∷ b ∷ c ∷ []) v l h = absurd (omega arith)

next_buf-release_self :
    (nifp : NetmapIf) (x : ℕ)
    → IsBuffer nifp x
    → nifp.ni_bufs_head < 2 ^ 32
    → next_buf (release_buf nifp x) x ≡ nifp.ni_bufs_head
unfolding next_buf release_buf
next_buf-release_self nifp x b h = rw (eq→== x x refl) (read_u32-write_u32 _ _ b.2 h)

next_buf-release_ne :
    (nifp : NetmapIf) (x y : ℕ) → x ≢ y → next_buf (release_buf nifp x) y ≡ next_buf nifp y
unfolding next_buf release_buf
next_buf-release_ne nifp x y ne = rw (ne→== x y ne)

Chain-release-Fresh :
    (nifp : NetmapIf) (x scan : ℕ) (ys : List ℕ)
    → Fresh x ys
    → Chain nifp scan ys
    → Chain (release_buf nifp x) scan ys
Chain-release-Fresh nifp x scan [] f c = c
Chain-release-Fresh nifp x scan (y ∷ ys) f c = (
  c.0,
  c.1,
  rw (next_buf-release_ne nifp x y f.0) (Chain-release-Fresh nifp x (next_buf nifp y) ys f.1 c.2),
)

-- A buffer that is given back becomes the first of the list.
pub Chain-release :
    (nifp : NetmapIf) (x : ℕ) (ys : List ℕ)
    → IsBuffer nifp x
    → nifp.ni_bufs_head < 2 ^ 32
    → Fresh x ys
    → Chain nifp nifp.ni_bufs_head ys
    → Chain (release_buf nifp x) (release_buf nifp x).ni_bufs_head (x ∷ ys)
unfolding release_buf
Chain-release nifp x ys b h f c = (
  refl,
  omega (arith, b.0),
  rw (next_buf-release_self nifp x b h) (Chain-release-Fresh nifp x _ ys f c),
)

length-write_u32 : (bytes : List ℕ) (v : ℕ) → length (write_u32 bytes v) ≡ length bytes
unfolding write_u32
length-write_u32 (a ∷ b ∷ c ∷ d ∷ rest) v = refl
length-write_u32 [] v = refl
length-write_u32 (a ∷ []) v = refl
length-write_u32 (a ∷ b ∷ []) v = refl
length-write_u32 (a ∷ b ∷ c ∷ []) v = refl

release-IsBuffer : (nifp : NetmapIf) (x y : ℕ) → IsBuffer nifp y → IsBuffer (release_buf nifp x) y
unfolding release_buf
release-IsBuffer nifp x y b =
    (b.0, b.1, ground (arith, length-write_u32 (netmap_buf nifp x) nifp.ni_bufs_head, b.2))

-- The buffers `xs` can be given back one after the other, onto the list `ys`.
abbrev pub AreReleasable : NetmapIf → List ℕ → List ℕ → Type 0
AreReleasable nifp [] ys = Unit
AreReleasable nifp (x ∷ xs) ys = IsBuffer nifp x × Fresh x ys × AreReleasable nifp xs (x ∷ ys)

pub release-AreReleasable :
    (nifp : NetmapIf) (x : ℕ) (xs ys : List ℕ)
    → AreReleasable nifp xs ys
    → AreReleasable (release_buf nifp x) xs ys
release-AreReleasable nifp x [] ys a = tt
release-AreReleasable nifp x (y ∷ xs) ys (b, f, a) =
    (release-IsBuffer nifp x y b, f, release-AreReleasable nifp x xs (y ∷ ys) a)

-- `xs`, last first, before `ys`.
abbrev pub onto : List ℕ → List ℕ → List ℕ
onto [] ys = ys
onto (x ∷ xs) ys = onto xs (x ∷ ys)

-- If the buffers are different and none is in the list, the loop of `drop` ends: every buffer of the free ring is given back, and the list holds them,
-- the last one first, before those that were there.
pub release_free_ring_lem :
    {bits : ℕ} (xs ys : List ℕ) (nifp : NetmapIf) (q : CircularQueue ℕ)
    → Holds bits q xs
    → AreReleasable nifp xs ys
    → nifp.ni_bufs_head < 2 ^ 32
    → Chain nifp nifp.ni_bufs_head ys
    → (q' : CircularQueue ℕ) × (nifp' : NetmapIf) × (release_free_ring (suc (length xs)) q nifp
        ≡ some (q', nifp'))
      × Holds bits q' []
      × Chain nifp' nifp'.ni_bufs_head (onto xs ys)
unfolding release_free_ring
release_free_ring_lem [] ys nifp q h a l c =
    (q, nifp, rw (release_free_ring, is_empty-count h), h, c)
release_free_ring_lem (x ∷ xs) ys nifp q h (b, f, a) l c =
    let (q', nifp', run, h', c') =
      release_free_ring_lem xs (x ∷ ys) (release_buf nifp x) (CircularQueue.advance_head q)
        (pop_unchecked-Holds h).1 (release-AreReleasable nifp x xs (x ∷ ys) a) (small nifp x b)
        (Chain-release nifp x ys b l f c) in
    (q', nifp', rw (release_free_ring, is_empty-cons h, clone_pop_unchecked-Holds h) run, h', c')
  where
    small : (nifp : NetmapIf) (x : ℕ) → IsBuffer nifp x → (release_buf nifp x).ni_bufs_head < 2 ^ 32
    small nifp x b = b.1

-- If the buffers of the list fit the free ring, the loop of `bind` ends: the free ring holds the buffers of the list, in order, after those that
-- it had.
pub fill_free_ring_lem :
    {bits : ℕ} (nifp : NetmapIf) (ys xs : List ℕ) (fuel scan : ℕ) (q : CircularQueue ℕ)
    → Chain nifp scan ys
    → Holds bits q xs
    → length xs + length ys ≤ 2 ^ bits
    → length ys ≤ fuel
    → (q' : CircularQueue ℕ) × (fill_free_ring nifp fuel q scan ≡ some q')
      × Holds bits q' (xs ++ ys)
unfolding fill_free_ring
fill_free_ring_lem nifp [] xs zero scan q c h room l = (q, rw (eq→== scan 0 c), rw append-nil h)
fill_free_ring_lem nifp [] xs (suc fuel) scan q c h room l =
    (q, rw (fill_free_ring, eq→== scan 0 c), rw append-nil h)
fill_free_ring_lem nifp (y ∷ ys) xs zero scan q c h room l = elim l [ ]
fill_free_ring_lem nifp (y ∷ ys) xs (suc fuel) scan q c h room l =
    let (e, h') = push_unchecked-Holds y h (omega arith) in
    let (q', run, done) =
      fill_free_ring_lem nifp ys (xs ++ y ∷ []) fuel (next_buf nifp y) (pushed q y) c.2 h'
        (omega (arith, length-append xs (y ∷ []))) (omega arith) in
    (
      q',
      ap (fill_free_ring nifp (suc fuel) q) c.0 ∙ rw (fill_free_ring, ne→== y 0 c.1, e) run,
      rw (← append_assoc xs (y ∷ []) ys) done,
    )
