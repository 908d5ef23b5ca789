-- ===== src/Fat/Chains/Allocated.antt =====
-- What fat32_allocate_clusters and expand_cluster_chain of kernel/src/filesystem/fat32.c leave in the
-- table.
use kerosene.Base.{
  ℕ, suc, ◌+◌, ◌-◌, ◌^◌, ◌<◌, ◌≤◌, ◌≡◌, ◌≢◌, refl, ◌∙◌, sym, Bool, true, false, some, List, [], ◌∷◌,
  ◌++◌, length, take, arith, ◌==◌, inl, inr, Bool-cases,
}
use mathlib.Core.Path.{subst}
use kerosene.Base.Words.{u32, sub32}
use kerosene.Process.Queue.Chain.{has, ◌∉◌, Distinct}
use kerosene.Fat.{fat_bad_cluster, Volume, Fs, update_fsinfo}
use kerosene.Fat.Entries.{fat, set_fat, IsVolume, get_fat_entry-set_fat_entry, update_fsinfo-fat}
use kerosene.Fat.Chains.{fat32_allocate_clusters, expand_cluster_chain}
use kerosene.Fat.Chains.Link.{
  Chain, Chain-same, Chain-append, Chain-set_fat, Chain-Clusters, Clusters-has, apart,
}
use kerosene.Fat.Chains.Allocate.{free_from, last, allocate_loop-first}
use kerosene.Fat.Chains.Extend.{
  Ascends, Ascends-Distinct, Ascends-free, Ascends-Below, Ascends-mono, free_from-Ascends, closed,
  closed-others, closed-Chain,
}
use kerosene.Fat.Chains.Count.{Chain-Used, IsCounted, count_free_cluster-Frees, top_cluster}

-- The clusters `y ∷ ys`, which were free, are a chain; every other entry is as it was; they are no longer
-- counted as free, and the search for free clusters starts from the last of them.
pub record Allocated (v : Volume) (fs fs' : Fs) (y : ℕ) (ys : List ℕ) : Type 0 where
  pub chain : Chain (fat v fs'.disk) y (y ∷ ys)
  pub others : (c : ℕ) → c < 2 ^ 28 → c ∉ (y ∷ ys) → fat v fs'.disk c ≡ fat v fs.disk c
  pub counted : fs'.free_cluster_count ≡ fs.free_cluster_count - suc (length ys)
  pub start : fs'.available_clusters_start ≡ last y ys

last-lt : (f : ℕ → ℕ) (low top y : ℕ) (ys : List ℕ) → Ascends f low top (y ∷ ys) → last y ys < top
last-lt f low top y [] (ge, lt, z, a) = lt
last-lt f low top y (x ∷ xs) (ge, lt, z, a) = last-lt f (y + 1) top x xs a

has-last : (e : ℕ) (xs : List ℕ) → has e (xs ++ e ∷ []) ≡ true
has-last e [] = ground arith
has-last e (x ∷ xs) = ground (arith, has-last e xs)

has-front : (c : ℕ) (xs : List ℕ) (e : ℕ) → has c xs ≡ true → has c (xs ++ e ∷ []) ≡ true
has-front c [] e mem = absurd (ground (arith, mem))
has-front c (x ∷ xs) e mem = ground (arith, mem, has-front c xs e)

Distinct-last : (e : ℕ) (xs : List ℕ) → Distinct (xs ++ e ∷ []) → e ∉ xs
Distinct-last e [] d = refl
Distinct-last e (x ∷ xs) (out, d) =
    let ne : (e == x) ≡ false = elim (Bool-cases (e == x)) [
      | inl same ↦
          let eq : e ≡ x = ground (arith, same) in
          let mem = has-last e xs in absurd (ground (arith, rw eq at mem, out))
      | inr differ ↦ differ
    ] in
    rw (ne, Distinct-last e xs d) refl

-- The clusters of a chain have entries and these are in use.
Chain-not_free :
    (f : ℕ → ℕ) (p : ℕ) (xs : List ℕ) (c : ℕ) → Chain f p xs → has c xs ≡ true → f c ≢ 0
Chain-not_free f p [] c chain mem = absurd (ground (arith, mem))
Chain-not_free f p (x ∷ []) c (e, is, end) mem =
    λ z. let eq : c ≡ x = ground (arith, mem) in absurd (omega (arith, rw eq at z, end))
Chain-not_free f p (x ∷ (y ∷ ys)) c (e, is, (to, is_y, chain)) mem = elim (Bool-cases (c == x)) [
  | inl same ↦
      λ z. let eq : c ≡ x = ground (arith, same) in absurd (omega (arith, rw eq at z, to, is_y.0))
  | inr differ ↦ Chain-not_free f (f x) (y ∷ ys) c (to, is_y, chain) (rw differ at mem)
]

Chain-lt : (f : ℕ → ℕ) (p : ℕ) (xs : List ℕ) (c : ℕ) → Chain f p xs → has c xs ≡ true → c < 2 ^ 28
Chain-lt f p xs c chain mem = omega (arith, (Clusters-has c xs (Chain-Clusters f p xs chain) mem).1)

module _ (v : Volume) (ok : IsVolume v) where
  -- Where `suc k` clusters are to be allocated, the `n` clusters from the start of the search on, which
  -- are numbers of data clusters, hold as many free ones and the counter says so too, the code gives the
  -- first `suc k` of the free clusters as a new chain, counts them off, and changes no other entry.
  pub fat32_allocate_clusters_lem :
      (fuel n k : ℕ) (fs : Fs) (y : ℕ) (ys : List ℕ) (clear : Bool)
      → take (suc k) (free_from (fat v fs.disk) fs.available_clusters_start n) ≡ y ∷ ys
      → length ys ≡ k
      → n < fuel
      → 2 ≤ fs.available_clusters_start
      → fs.available_clusters_start + n ≤ fat_bad_cluster
      → suc k ≤ fs.free_cluster_count
      → fs.free_cluster_count < u32
      → (fs' : Fs) × (fat32_allocate_clusters fuel v fs (suc k) clear ≡ some (y, fs'))
        × Allocated v fs fs' y ys
  unfolding fat32_allocate_clusters
  fat32_allocate_clusters_lem fuel n k fs y ys clear found len enough two top fits small =
      let h = fs.available_clusters_start in
      let f = fat v fs.disk in
      let a : Ascends f h (h + n) (y ∷ ys) =
        subst (Ascends f h (h + n)) found (free_from-Ascends f (suc k) n h) in
      let s = record fs {
        disk = closed v ok fs.disk y ys;
        available_clusters_start = last y ys;
        free_cluster_count = fs.free_cluster_count - suc k;
      } in
      let real : (y == 0) ≡ false = ground (arith, a.0, two) in
      let back : sub32 (last y ys + 1) 1 ≡ last y ys =
        omega (arith, last-lt f h (h + n) y ys a, top) in
      let runs =
        allocate_loop-first v ok n fuel fs.disk k h fs.free_cluster_count y ys enough
          (omega (arith, two)) (omega (arith, top)) found (omega (arith, len)) fits small in
      let made = closed-Chain v ok f h (h + n) fs.disk y ys a two top in
      let after = update_fsinfo v s in
      (
        after,
        rw (runs, real, back) refl,
        record {
          chain =
              Chain-same (fat v s.disk) (fat v after.disk) y (y ∷ ys)
                (λ c lt. update_fsinfo-fat v ok s c lt) made;
          others = λ c lt out.
              update_fsinfo-fat v ok s c lt
              ∙ closed-others v ok f h (h + n) fs.disk y ys c a (omega (arith, top)) lt out;
          counted = unfold update_fsinfo in rw len refl;
          start = unfold update_fsinfo in refl;
        },
      )

  -- Where the `n` clusters from the start of the search on belong to the volume and hold the clusters that
  -- are to be allocated, the counter is no smaller than their number and equals what count_free_cluster
  -- finds in the table, allocating them gives the first of them and keeps that equation. The numbers of
  -- the volume's clusters are below that of a bad cluster.
  pub fat32_allocate_clusters-IsCounted :
      (fuel n k : ℕ) (fs : Fs) (y : ℕ) (ys : List ℕ) (clear : Bool)
      → take (suc k) (free_from (fat v fs.disk) fs.available_clusters_start n) ≡ y ∷ ys
      → length ys ≡ k
      → n < fuel
      → 2 ≤ fs.available_clusters_start
      → fs.available_clusters_start + n ≤ top_cluster v
      → top_cluster v ≤ fat_bad_cluster
      → suc k ≤ fs.free_cluster_count
      → fs.free_cluster_count < u32
      → IsCounted v fs
      → (fs' : Fs) × (fat32_allocate_clusters fuel v fs (suc k) clear ≡ some (y, fs'))
        × IsCounted v fs'
  fat32_allocate_clusters-IsCounted fuel n k fs y ys clear found len enough two top all fits small
        counted =
      let h = fs.available_clusters_start in
      let f = fat v fs.disk in
      let a : Ascends f h (h + n) (y ∷ ys) =
        subst (Ascends f h (h + n)) found (free_from-Ascends f (suc k) n h) in
      let (fs', runs, r) =
        fat32_allocate_clusters_lem fuel n k fs y ys clear found len enough two
          (omega (arith, top, all)) fits small in
      let below =
        Ascends-Below f h (top_cluster v) (y ∷ ys)
          (Ascends-mono f h h (h + n) (top_cluster v) (y ∷ ys) (omega arith) top a) in
      let used = Chain-Used (fat v fs'.disk) y (top_cluster v) (y ∷ ys) r.chain below in
      let back =
        count_free_cluster-Frees v fs'.disk fs.disk (y ∷ ys) (omega (arith, all))
          (λ c lt. elim (Bool-cases (has c (y ∷ ys))) [
            | inl mem ↦ rw mem (Ascends-free f h (h + n) (y ∷ ys) c a mem)
            | inr out ↦ rw out (sym (r.others c lt out))
          ])
          used (Ascends-Distinct f h (h + n) (y ∷ ys) a) in
      (fs', runs, omega (arith, back, counted, r.counted, len))

  -- Expanding a chain of different clusters at its last one appends the new clusters to it: the first
  -- `suc k` free ones of the `n` clusters from the start of the search on. These are numbers of data
  -- clusters, and the counter of free clusters says too that there are so many.
  pub expand_cluster_chain_lem :
      (fuel n k : ℕ) (fs : Fs) (p e : ℕ) (xs : List ℕ) (y : ℕ) (ys : List ℕ) (clear : Bool)
      → Chain (fat v fs.disk) p (xs ++ e ∷ [])
      → Distinct (xs ++ e ∷ [])
      → take (suc k) (free_from (fat v fs.disk) fs.available_clusters_start n) ≡ y ∷ ys
      → length ys ≡ k
      → n < fuel
      → 2 ≤ fs.available_clusters_start
      → fs.available_clusters_start + n ≤ fat_bad_cluster
      → suc k ≤ fs.free_cluster_count
      → fs.free_cluster_count < u32
      → (fs' : Fs) × (expand_cluster_chain fuel v fs e (suc k) clear ≡ some (y, fs'))
        × Chain (fat v fs'.disk) p (xs ++ e ∷ (y ∷ ys))
  unfolding expand_cluster_chain
  expand_cluster_chain_lem fuel n k fs p e xs y ys clear chain distinct found len enough two top
        fits small =
      let f = fat v fs.disk in
      let h = fs.available_clusters_start in
      let a : Ascends f h (h + n) (y ∷ ys) =
        subst (Ascends f h (h + n)) found (free_from-Ascends f (suc k) n h) in
      let (fs₁, runs, r) =
        fat32_allocate_clusters_lem fuel n k fs y ys clear found len enough two top fits small in
      let fs' = record fs₁ { disk = set_fat v fs₁.disk e y } in
      let fresh : (c : ℕ) → has c (xs ++ e ∷ []) ≡ true → c ∉ (y ∷ ys) = λ c mem.
        elim (Bool-cases (has c (y ∷ ys))) [
          | inl new ↦ absurd (
              Chain-not_free f p (xs ++ e ∷ []) c chain mem
                (Ascends-free f h (h + n) (y ∷ ys) c a new))
          | inr out ↦ out
        ] in
      let e_in = has-last e xs in
      let e_lt = Chain-lt f p (xs ++ e ∷ []) e chain e_in in
      let y_lt : y < 2 ^ 28 = omega (arith, a.1, top) in
      let self : (e == e) ≡ true = ground arith in
      let real : (y == 0) ≡ false = ground (arith, a.0, two) in
      (
        fs',
        rw (runs, real) refl,
        Chain-append f (fat v fs'.disk) p e y xs (y ∷ ys)
            (λ c mem.
              let mem' = has-front c xs e mem in
              let lt = Chain-lt f p (xs ++ e ∷ []) c chain mem' in
              get_fat_entry-set_fat_entry v ok fs₁.disk e c y e_lt lt
              ∙ rw (apart e c xs (Distinct-last e xs distinct) mem) (r.others c lt (fresh c mem')))
            (get_fat_entry-set_fat_entry v ok fs₁.disk e e y e_lt e_lt
              ∙ rw self (omega (arith, y_lt)))
            chain (Chain-set_fat v ok fs₁.disk e y y (y ∷ ys) e_lt (fresh e e_in) r.chain),
      )
