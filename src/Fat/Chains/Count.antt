-- ===== src/Fat/Chains/Count.antt =====
-- count_free_cluster of kernel/src/filesystem/fat32.c, and the counter of the information sector.
use kerosene.Base.{
  ℕ, zero, suc, ◌+◌, ◌^◌, ◌<◌, ◌≤◌, ◌≡◌, ◌≢◌, refl, ◌∙◌, true, false, some, List, [], ◌∷◌, length,
  arith, ◌==◌, if◌then◌else◌, inl, inr, Bool-cases,
}
use kerosene.Base.Words.{u32}
use kerosene.Process.Queue.Chain.{has, ◌∉◌, Distinct}
use kerosene.Files.{FsErr}
use kerosene.Fat.{
  Volume, Disk, Fs, get_total_clusters, get_first_fat_sector, count_loop, count_free_cluster,
}
use kerosene.Fat.Entries.{fat, IsVolume}
use kerosene.Fat.Chains.{free_cluster_chain}
use kerosene.Fat.Chains.Link.{Chain}
use kerosene.Fat.Chains.Free.{Frees, free_cluster_chain_lem}

-- The number of free entries among `n` from cluster `i` on.
unfoldable pub free_in : (ℕ → ℕ) → ℕ → ℕ → ℕ
free_in f i zero = 0
free_in f i (suc n) = (if f i == 0 then 1 else 0) + free_in f (i + 1) n

count_loop-free_in :
    (v : Volume) (d : Disk) (n i acc : ℕ)
    → count_loop v d (get_first_fat_sector v.bootrec) n i acc ≡ acc + free_in (fat v d) i n
unfolding count_loop free_in
count_loop-free_in v d zero i acc = omega arith
count_loop-free_in v d (suc n) i acc = elim (Bool-cases (fat v d i == 0)) [
  | inl free ↦ rw free (count_loop-free_in v d n (i + 1) (acc + 1) ∙ omega arith)
  | inr used ↦ rw used (count_loop-free_in v d n (i + 1) acc ∙ omega arith)
]

-- Tables that agree on a range have as many free entries in it.
free_in-agree :
    (f g : ℕ → ℕ) (n i : ℕ) → ((c : ℕ) → c < i + n → g c ≡ f c) → free_in g i n ≡ free_in f i n
unfolding free_in
free_in-agree f g zero i same = refl
free_in-agree f g (suc n) i same =
    let rest = free_in-agree f g n (i + 1) (λ c k. same c (omega (arith, k))) in
    rw (same i (omega arith), rest) refl

abbrev freed : (ℕ → ℕ) → List ℕ → ℕ → ℕ
freed f xs c = if has c xs then 0 else f c

-- An entry below the range does not matter.
free_in-below :
    (f : ℕ → ℕ) (x : ℕ) (xs : List ℕ) (n i : ℕ)
    → x < i
    → free_in (freed f (x ∷ xs)) i n ≡ free_in (freed f xs) i n
unfolding free_in
free_in-below f x xs zero i lt = refl
free_in-below f x xs (suc n) i lt =
    let other : (i == x) ≡ false = ground (arith, lt) in
    rw (other, free_in-below f x xs n (i + 1) (omega (arith, lt))) refl

-- One more entry in the range that is made free.
free_in-one :
    (f : ℕ → ℕ) (x : ℕ) (xs : List ℕ) (n i : ℕ)
    → f x ≢ 0
    → x ∉ xs
    → i ≤ x
    → x < i + n
    → free_in (freed f (x ∷ xs)) i n ≡ free_in (freed f xs) i n + 1
unfolding free_in
free_in-one f x xs zero i used out ge lt = absurd (omega (arith, ge, lt))
free_in-one f x xs (suc n) i used out ge lt = elim (Bool-cases (i == x)) [
  | inl here ↦
      let e : i ≡ x = ground (arith, here) in
      let ne : (f x == 0) ≡ false = ground (arith, used) in
      let self : (x == x) ≡ true = ground arith in
      rw (e, self, out, ne, free_in-below f x xs n (x + 1) (omega arith)) (omega arith)
  | inr later ↦
      let more : i + 1 ≤ x = ground (arith, later, ge) in
      let rest = free_in-one f x xs n (i + 1) used out more (omega (arith, lt)) in
      rw (later, rest) (omega arith)
]

-- The clusters are in the range and not free.
abbrev pub Used : (ℕ → ℕ) → ℕ → List ℕ → Type 0
Used f top [] = Unit
Used f top (x ∷ xs) = (f x ≢ 0) × (2 ≤ x) × (x < top) × Used f top xs

free_in-freed :
    (f : ℕ → ℕ) (xs : List ℕ) (n : ℕ)
    → Used f (2 + n) xs
    → Distinct xs
    → free_in (freed f xs) 2 n ≡ free_in f 2 n + length xs
free_in-freed f [] n used distinct = omega arith
free_in-freed f (x ∷ xs) n (ne, ge, lt, used) (out, distinct) =
    omega (arith, free_in-one f x xs n 2 ne out ge lt, free_in-freed f xs n used distinct)

abbrev pub Below : ℕ → List ℕ → Type 0
Below top [] = Unit
Below top (x ∷ xs) = (x < top) × Below top xs

-- Every entry of a chain is in use.
pub Chain-Used : (f : ℕ → ℕ) (p top : ℕ) (xs : List ℕ) → Chain f p xs → Below top xs → Used f top xs
Chain-Used f p top [] chain below = tt
Chain-Used f p top (x ∷ []) (e, is, end) (lt, below) = (ground (arith, end), is.0, lt, tt)
Chain-Used f p top (x ∷ (y ∷ ys)) (e, is, (to, is_y, chain)) (lt, below) =
    (ground (arith, to, is_y.0), is.0, lt, Chain-Used f (f x) top (y ∷ ys) (to, is_y, chain) below)

-- The clusters that the volume has, fewer than the table can number.
abbrev pub top_cluster : Volume → ℕ
top_cluster v = 2 + get_total_clusters v.bootrec

-- The counter agrees with the table.
abbrev pub IsCounted : Volume → Fs → Type 0
IsCounted v fs =
    fs.free_cluster_count ≡ count_free_cluster v fs.disk (get_first_fat_sector v.bootrec)

-- The count of a table in which used clusters have been made free.
pub count_free_cluster-Frees :
    (v : Volume) (d d' : Disk) (xs : List ℕ)
    → top_cluster v ≤ 2 ^ 28
    → Frees (fat v d) (fat v d') xs
    → Used (fat v d) (top_cluster v) xs
    → Distinct xs
    → count_free_cluster v d' (get_first_fat_sector v.bootrec)
      ≡ count_free_cluster v d (get_first_fat_sector v.bootrec) + length xs
unfolding count_free_cluster
count_free_cluster-Frees v d d' xs small frees used distinct =
    let n = get_total_clusters v.bootrec in
    let same =
      free_in-agree (freed (fat v d) xs) (fat v d') n 2
        (λ c k. frees c (omega (arith, k, small))) in
    omega (
      arith,
      count_loop-free_in v d n 2 0,
      count_loop-free_in v d' n 2 0,
      same,
      free_in-freed (fat v d) xs n used distinct,
    )

free_in-le : (f : ℕ → ℕ) (n i : ℕ) → free_in f i n ≤ n
unfolding free_in
free_in-le f zero i = omega arith
free_in-le f (suc n) i = ground (arith, free_in-le f n (i + 1))

-- So the counter does not overflow.
count_fits :
    (v : Volume) (fs : Fs) (xs : List ℕ)
    → top_cluster v ≤ 2 ^ 28
    → IsCounted v fs
    → Used (fat v fs.disk) (top_cluster v) xs
    → Distinct xs
    → fs.free_cluster_count + length xs < u32
unfolding count_free_cluster
count_fits v fs xs small counted used distinct =
    let n = get_total_clusters v.bootrec in
    omega (
      arith,
      small,
      counted,
      count_loop-free_in v fs.disk n 2 0,
      free_in-freed (fat v fs.disk) xs n used distinct,
      free_in-le (freed (fat v fs.disk) xs) n 2,
    )

-- Freeing a chain of different clusters of the volume ends well and keeps the counter of free clusters
-- equal to what count_free_cluster finds in the table. The volume has fewer than 2^28 - 1 clusters.
pub free_cluster_chain-IsCounted :
    (v : Volume) (ok : IsVolume v) (fuel : ℕ) (fs : Fs) (x : ℕ) (xs : List ℕ)
    → top_cluster v ≤ 2 ^ 28
    → IsCounted v fs
    → Chain (fat v fs.disk) x (x ∷ xs)
    → Below (top_cluster v) (x ∷ xs)
    → Distinct (x ∷ xs)
    → length (x ∷ xs) < fuel
    → (fs' : Fs) × (free_cluster_chain fuel v fs x ≡ some (FsErr.success, fs')) × IsCounted v fs'
free_cluster_chain-IsCounted v ok fuel fs x xs small counted chain below distinct enough =
    let used = Chain-Used (fat v fs.disk) x (top_cluster v) (x ∷ xs) chain below in
    let fits = count_fits v fs (x ∷ xs) small counted used distinct in
    let (fs', runs, frees, count, start) =
      free_cluster_chain_lem v ok fuel fs x xs chain distinct enough fits in
    let table = count_free_cluster-Frees v fs.disk fs'.disk (x ∷ xs) small frees used distinct in
    (fs', runs, omega (arith, count, counted, table))
