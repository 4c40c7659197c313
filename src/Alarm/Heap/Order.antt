-- ===== src/Alarm/Heap/Order.antt =====
-- The heap order of the keys, and what a sift has left broken.
use packages_modules_stats_d.Common.{
  ℕ, zero, suc, ◌/◌, ◌≤◌, ◌<◌, ◌≡◌, ◌≢◌, ◌==◌, if◌then◌else◌, ◌⊎◌, inl, inr, Bool-cases, arith,
}

-- No key is smaller than its parent's, at 2 to n.
abbrev pub IsHeap : (ℕ → ℕ) → ℕ → Type 0
IsHeap K n = (c : ℕ) → 2 ≤ c → c ≤ n → K (c / 2) ≤ K c

-- Only the edge above `i` may be broken; the keys below `i` are not smaller than its parent's.
pub record UpHeap (K : ℕ → ℕ) (n i : ℕ) : Type 0 where
  pub edges : (c : ℕ) → 2 ≤ c → c ≤ n → c ≢ i → K (c / 2) ≤ K c
  pub bridges : (c : ℕ) → 2 ≤ i → c ≤ n → c / 2 ≡ i → K (i / 2) ≤ K c

-- Only the edges below `i` may be broken.
pub record DownHeap (K : ℕ → ℕ) (n i : ℕ) : Type 0 where
  pub edges : (c : ℕ) → 2 ≤ c → c ≤ n → c / 2 ≢ i → K (c / 2) ≤ K c
  pub bridges : (c : ℕ) → 2 ≤ i → c ≤ n → c / 2 ≡ i → K (i / 2) ≤ K c

-- The edges above and below `i` may be broken.
pub record GapHeap (K : ℕ → ℕ) (n i : ℕ) : Type 0 where
  pub edges : (c : ℕ) → 2 ≤ c → c ≤ n → c ≢ i → c / 2 ≢ i → K (c / 2) ≤ K c
  pub bridges : (c : ℕ) → 2 ≤ i → c ≤ n → c / 2 ≡ i → K (i / 2) ≤ K c

-- The keys `L` are the keys `K` with those at `i` and `j` swapped.
abbrev pub Swapped : (ℕ → ℕ) → (ℕ → ℕ) → ℕ → ℕ → Type 0
Swapped K L i j = (k : ℕ) → L k ≡ (if j == k then K i else if i == k then K j else K k)

pub UpHeap-swap :
    (K L : ℕ → ℕ) (n i : ℕ)
    → UpHeap K n i
    → 2 ≤ i
    → i ≤ n
    → K i < K (i / 2)
    → Swapped K L i (i / 2)
    → UpHeap L n (i / 2)
UpHeap-swap K L n i v p q less s = record {
  edges = λ c c2 cn ne.
      ground (arith, s c, s (c / 2), v.edges c c2 cn, v.bridges c p cn, v.edges (i / 2));
  bridges = λ c p2 cn par. ground (
    arith,
    s c,
    s (i / 2 / 2),
    s (c / 2),
    v.edges c (omega arith) cn,
    v.edges (i / 2) p2 (omega arith),
  );
}

-- Without a broken edge above, the whole is a heap.
pub IsHeap-UpHeap : (K : ℕ → ℕ) (n i : ℕ) → UpHeap K n i → i < 2 ⊎ (K (i / 2) ≤ K i) → IsHeap K n
IsHeap-UpHeap K n i v h c p q = ground (arith, v.edges c p q)

pub DownHeap-swap :
    (K L : ℕ → ℕ) (n i child : ℕ)
    → DownHeap K n i
    → 1 ≤ i
    → child ≤ n
    → child / 2 ≡ i
    → K child < K i
    → ((c : ℕ) → c ≤ n → c / 2 ≡ i → K child ≤ K c)
    → Swapped K L child i
    → DownHeap L n child
DownHeap-swap K L n i child v p q par less least s = record {
  edges =
      λ c c2 cn ne. ground (arith, s c, s (c / 2), v.edges c c2 cn, v.bridges child, least c cn);
  bridges = λ c p2 cn par2. ground (arith, s c, s (child / 2), v.edges c (omega arith) cn);
}

pub IsHeap-DownHeap :
    (K : ℕ → ℕ) (n i : ℕ) → DownHeap K n i → ((c : ℕ) → c ≤ n → c / 2 ≡ i → K i ≤ K c) → IsHeap K n
IsHeap-DownHeap K n i v h c p q = ground (arith, v.edges c p q, h c q)

-- The smallest key is at the root.
pub IsHeap-root :
    (fuel : ℕ) (K : ℕ → ℕ) (n c : ℕ) → IsHeap K n → c ≤ fuel → 1 ≤ c → c ≤ n → K 1 ≤ K c
IsHeap-root zero K n c h f p q = absurd (omega arith)
IsHeap-root (suc fuel) K n c h f p q = elim (Bool-cases (c == 1)) [
  | inl t ↦ ground arith
  | inr t ↦ ground (arith, h c, IsHeap-root fuel K n (c / 2) h)
]

pub DownHeap-IsHeap : (K : ℕ → ℕ) (n i : ℕ) → IsHeap K n → DownHeap K n i
DownHeap-IsHeap K n i h = record {
  edges = λ c p q ne. h c p q;
  bridges = λ c p q par. ground (arith, h c (omega arith) q, h i p (omega arith));
}

pub UpHeap-GapHeap : (K : ℕ → ℕ) (n i : ℕ) → GapHeap K n i → 2 ≤ i → K i < K (i / 2) → UpHeap K n i
UpHeap-GapHeap K n i v p less = record {
  edges = λ c c2 cn ne. ground (arith, v.edges c c2 cn ne, v.bridges c p cn);
  bridges = v.bridges;
}

pub DownHeap-GapHeap :
    (K : ℕ → ℕ) (n i : ℕ) → GapHeap K n i → i < 2 ⊎ (K (i / 2) ≤ K i) → DownHeap K n i
DownHeap-GapHeap K n i v h = record {
  edges = λ c c2 cn ne. ground (arith, v.edges c c2 cn);
  bridges = v.bridges;
}
