-- ===== src/Timer/Sift.antt =====
-- UpHeap and DownHeap restore the heap order and keep the links.
use chain_socket.Base.{
  ℕ, zero, suc, ◌+◌, ◌-◌, ◌*◌, ◌≤◌, ◌<◌, ◌≡◌, refl, ◌≢◌, List, ltb, ◌==◌, length, arith, Bool-cases,
  inl, inr, ◌⊎◌, ℕ_discrete,
}
use native.Mathlib.Nat.{le_refl}
use chain_socket.Base.Outcome.{Yields}
use chain_socket.Timer.{
  HeapEntry, TimerManager, npos, parent, up_loop, up_heap, min_child, down_loop, down_heap,
}
use chain_socket.Timer.Heap.{exchange, length-exchange, at-exchange, key, earlier-key, IsHeap}
use chain_socket.Timer.Wiring.{
  Wired, Kept, Kept-refl, Kept-trans, swapped, swap_heap-swapped, heap-swapped, swapped-Wired,
  swapped-Kept,
}

-- The order holds past `i`, from its parent to its children.
abbrev pub IsBridge : List HeapEntry → ℕ → Type 0
IsBridge h i = (c : ℕ) → 0 < c → c < length h → parent c ≡ i → 0 < i → key h (parent i) ≤ key h c

-- Only the edge above `i` may be out of order.
pub record Light (h : List HeapEntry) (i : ℕ) : Type 0 where
  pub edges : (c : ℕ) → 0 < c → c < length h → c ≢ i → key h (parent c) ≤ key h c
  pub bridge : IsBridge h i

-- Only the edges below `i` may be out of order.
pub record Heavy (h : List HeapEntry) (i : ℕ) : Type 0 where
  pub edges : (c : ℕ) → 0 < c → c < length h → parent c ≢ i → key h (parent c) ≤ key h c
  pub bridge : IsBridge h i

-- A heap of the same timers as `m`, with its links.
abbrev pub Settled : (ℕ → Type 0) → TimerManager → TimerManager → Type 0
Settled on m m' = IsHeap m'.heap × Wired on m' × Kept m m'

exchange-Light :
    (h : List HeapEntry) (i : ℕ)
    → Light h i
    → 0 < i
    → i < length h
    → key h i < key h (parent i)
    → Light (exchange h i (parent i)) (parent i)
exchange-Light h i v pos hi below =
    let p = parent i in
    let hp : p < length h = omega arith in
    let size = length-exchange h i p in
    record {
      edges = λ c q r s. ground (
        arith,
        size,
        v.edges c,
        v.edges p,
        v.bridge c,
        at-exchange h i p c hi hp,
        at-exchange h i p (parent c) hi hp,
      );
      bridge = λ c q r s t. ground (
        arith,
        size,
        v.edges c,
        v.edges p,
        at-exchange h i p c hi hp,
        at-exchange h i p (parent p) hi hp,
      );
    }

module _ (on : ℕ → Type 0) where
  up_loop-Settled :
      (f : ℕ) (m : TimerManager) (i : ℕ)
      → i < f
      → i < length m.heap
      → length m.heap ≤ npos
      → Wired on m
      → Light m.heap i
      → Yields (Settled on m) (up_loop f m i)
  unfolding up_loop
  up_loop-Settled zero m i lt hi small w v = absurd (omega arith)
  up_loop-Settled (suc f) m i lt hi small w v = elim (Bool-cases (ltb 0 i)) [
    | inr root ↦ rw root (m, refl, ((λ c p q. v.edges c p q (ground arith)), w, Kept-refl m))
    | inl above ↦
        let p = parent i in
        let hp : p < length m.heap = omega arith in
        elim (Bool-cases (ltb (key m.heap i) (key m.heap p))) [
          | inr in_order ↦
              rw (above, earlier-key m.heap i p hi hp, in_order)
                (m, refl, ((λ c q r. ground (arith, v.edges c)), w, Kept-refl m))
          | inl less ↦
              let m1 = swapped m i p in
              let kept = swapped-Kept on m i p w hi hp small in
              let heap1 = heap-swapped on m i p in
              let light : Light m1.heap p =
                rw heap1 (exchange-Light m.heap i v (ground arith) hi (ground arith)) in
              let (m2, run, (ord, w2, kept2)) =
                up_loop-Settled f m1 p (ground arith) (omega (arith, kept.size))
                  (omega (arith, kept.size)) (swapped-Wired on m i p w hi hp) light in
              (
                m2,
                rw (above, earlier-key m.heap i p hi hp, less, swap_heap-swapped on m i p hi hp)
                    run,
                (ord, w2, Kept-trans kept kept2),
              )
        ]
  ]

  -- UpHeap on an entry that may be too early for its place returns a heap of the same timers, when
  -- the heap's indices fit a size_t.
  pub up_heap-Settled :
      (m : TimerManager) (i : ℕ)
      → i < length m.heap
      → length m.heap ≤ npos
      → Wired on m
      → Light m.heap i
      → Yields (Settled on m) (up_heap m i)
  unfolding up_heap
  up_heap-Settled m i = up_loop-Settled (suc i) m i (omega arith)

-- The child that DownHeap compares with: no child of `i` is earlier.
record IsMinChild (h : List HeapEntry) (i c : ℕ) : Type 0 where
  inside : c < length h
  below : (c ≡ i * 2 + 1) ⊎ (c ≡ i * 2 + 2)
  least : (d : ℕ) → 0 < d → d < length h → parent d ≡ i → key h c ≤ key h d

-- A node has two children.
least_of_two :
    (h : List HeapEntry) (i c d : ℕ)
    → 0 < d
    → parent d ≡ i
    → key h c ≤ key h (i * 2 + 1)
    → key h c ≤ key h (i * 2 + 1 + 1)
    → key h c ≤ key h d
least_of_two h i c d p r left right = elim (ℕ_discrete d (i * 2 + 1)) [
  | yes e ↦ rw e left
  | no n ↦ let e : d ≡ i * 2 + 1 + 1 = omega arith in rw e right
]

min_child-IsMinChild :
    (h : List HeapEntry) (i : ℕ)
    → i * 2 + 1 < length h
    → Yields (IsMinChild h i) (min_child h (i * 2 + 1))
unfolding min_child
min_child-IsMinChild h i lt = elim (Bool-cases (i * 2 + 1 + 1 == length h)) [
  | inl alone ↦ (
    i * 2 + 1,
    rw alone,
    record { inside = lt; below = inl refl; least = λ d p q r. ground arith },
  )
  | inr two ↦
      let right : i * 2 + 1 + 1 < length h = ground arith in
      let compared = earlier-key h (i * 2 + 1) (i * 2 + 1 + 1) lt right in
      elim (Bool-cases (ltb (key h (i * 2 + 1)) (key h (i * 2 + 1 + 1)))) [
        | inl less ↦ (
          i * 2 + 1,
          rw (two, compared, less),
          record {
            inside = lt;
            below = inl refl;
            least = λ d p q r. least_of_two h i (i * 2 + 1) d p r (le_refl _) (ground arith);
          },
        )
        | inr not_less ↦ (
          i * 2 + 1 + 1,
          rw (two, compared, not_less),
          record {
            inside = right;
            below = inr (omega arith);
            least = λ d p q r. least_of_two h i (i * 2 + 1 + 1) d p r (ground arith) (le_refl _);
          },
        )
      ]
]

exchange-Heavy :
    (h : List HeapEntry) (i c : ℕ)
    → Heavy h i
    → i < length h
    → IsMinChild h i c
    → key h c ≤ key h i
    → Heavy (exchange h i c) c
exchange-Heavy h i c v hi k le =
    let size = length-exchange h i c in
    let hc = k.inside in
    record {
      edges = λ d q r s. ground (
        arith,
        size,
        k.below,
        v.edges d,
        v.bridge c,
        k.least d,
        at-exchange h i c d hi hc,
        at-exchange h i c (parent d) hi hc,
      );
      bridge = λ d q r s t. ground (
        arith,
        size,
        k.below,
        v.edges d,
        at-exchange h i c d hi hc,
        at-exchange h i c (parent c) hi hc,
      );
    }

module _ (on : ℕ → Type 0) where
  down_loop-Settled :
      (f : ℕ) (m : TimerManager) (i : ℕ)
      → length m.heap - i < f
      → i < length m.heap
      → length m.heap ≤ npos
      → Wired on m
      → Heavy m.heap i
      → Yields (Settled on m) (down_loop f m i)
  unfolding down_loop
  down_loop-Settled zero m i lt hi small w v = absurd (omega arith)
  down_loop-Settled (suc f) m i lt hi small w v =
      elim (Bool-cases (ltb (i * 2 + 1) (length m.heap))) [
        | inr leaf ↦ rw leaf (m, refl, ((λ c p q. v.edges c p q (ground arith)), w, Kept-refl m))
        | inl inner ↦
            let (c, found, k) = min_child-IsMinChild m.heap i (ground arith) in
            let compared = earlier-key m.heap i c hi k.inside in
            elim (Bool-cases (ltb (key m.heap i) (key m.heap c))) [
              | inl settled ↦
                  rw (inner, found, compared, settled)
                    (m, refl, ((λ d p q. ground (arith, v.edges d, k.least d)), w, Kept-refl m))
              | inr late ↦
                  let hc = k.inside in
                  let m1 = swapped m i c in
                  let kept = swapped-Kept on m i c w hi hc small in
                  let heavy : Heavy m1.heap c =
                    rw (heap-swapped on m i c) (exchange-Heavy m.heap i c v hi k (ground arith)) in
                  let (m2, run, (ord, w2, kept2)) =
                    down_loop-Settled f m1 c (omega (arith, kept.size, k.below))
                      (omega (arith, kept.size, k.inside)) (omega (arith, kept.size))
                      (swapped-Wired on m i c w hi hc) heavy in
                  (
                    m2,
                    rw (inner, found, compared, late, swap_heap-swapped on m i c hi hc) run,
                    (ord, w2, Kept-trans kept kept2),
                  )
            ]
      ]

  pub down_heap-Settled :
      (m : TimerManager) (i : ℕ)
      → i < length m.heap
      → length m.heap ≤ npos
      → Wired on m
      → Heavy m.heap i
      → Yields (Settled on m) (down_heap m i)
  unfolding down_heap
  down_heap-Settled m i = down_loop-Settled (suc (length m.heap)) m i (omega arith)
