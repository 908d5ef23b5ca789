-- ===== src/Fat/Chains/Free.antt =====
-- free_cluster_chain and cut_cluster_chain of kernel/src/filesystem/fat32.c.
use kerosene.Base.{
  ℕ, zero, suc, ◌+◌, ◌^◌, ◌<◌, ◌≤◌, ◌≡◌, refl, ◌∙◌, Bool, false, ◌||◌, some, List, [], ◌∷◌, length,
  arith, ◌==◌, ltb, if◌then◌else◌, ap,
}
use kerosene.Base.Words.{u32, add32}
use kerosene.Process.Queue.Chain.{has, Distinct}
use kerosene.Files.{FsErr}
use kerosene.Fat.{fat_eoc, fat_bad_cluster, Volume, Disk, Fs, update_fsinfo}
use kerosene.Fat.Entries.{fat, set_fat, IsVolume, get_fat_entry-set_fat_entry, update_fsinfo-fat}
use kerosene.Fat.Chains.{free_loop, free_cluster_chain}
use kerosene.Fat.Chains.Link.{Chain, Chain-set_fat, cluster_leads_on, end_leads_on}

-- The table `g` has the entries of `xs` free, and the others as `f` has them.
abbrev pub Frees : (ℕ → ℕ) → (ℕ → ℕ) → List ℕ → Type 0
Frees f g xs = (c : ℕ) → c < 2 ^ 28 → g c ≡ (if has c xs then 0 else f c)

first_or_later :
    (x c : ℕ) (later : Bool) (k : ℕ)
    → (if later then 0 else (if x == c then 0 else k)) ≡ (if (c == x) || later then 0 else k)
first_or_later x c later k = ground arith

module _ (v : Volume) (ok : IsVolume v) where
  pub record Freed (fuel : ℕ) (d : Disk) (p n : ℕ) (xs : List ℕ) : Type 0 where
    pub disk : Disk
    pub stop : ℕ
    pub runs : free_loop fuel v d p n ≡ some (disk, stop, n + length xs)
    pub at_end : fat_eoc ≤ stop
    pub frees : Frees (fat v d) (fat v disk) xs

  pub free_loop-Freed :
      (fuel : ℕ) (d : Disk) (p n : ℕ) (xs : List ℕ)
      → Chain (fat v d) p xs
      → Distinct xs
      → length xs < fuel
      → n + length xs < u32
      → Freed fuel d p n xs
  unfolding free_loop
  free_loop-Freed zero d p n xs chain distinct enough small = elim enough [ ]
  free_loop-Freed (suc fuel) d p n [] end distinct enough small = record {
    disk = d;
    stop = p;
    runs = let e : n + 0 ≡ n = omega arith in rw (end_leads_on p end, e) refl;
    at_end = end;
    frees = λ c lt. refl;
  }
  free_loop-Freed (suc fuel) d p n (x ∷ xs) (e, is, chain) (out, distinct) enough small =
      let d' = set_fat v d x 0 in
      let lt : x < 2 ^ 28 = omega (arith, is.1) in
      let left = Chain-set_fat v ok d x 0 (fat v d x) xs lt out chain in
      let next : add32 n 1 ≡ n + 1 = omega (arith, small) in
      let total : n + 1 + length xs ≡ n + suc (length xs) = omega arith in
      let step : free_loop (suc fuel) v d p n ≡ free_loop fuel v d' (fat v d x) (n + 1) =
        rw (e, cluster_leads_on x is, next) refl in
      let r =
        free_loop-Freed fuel d' (fat v d x) (n + 1) xs left distinct (omega (arith, enough))
          (omega (arith, small)) in
      record {
        disk = r.disk;
        stop = r.stop;
        runs = step ∙ r.runs ∙ ap (λ (m : ℕ). some (r.disk, r.stop, m)) total;
        at_end = r.at_end;
        frees = λ c k.
            r.frees c k
            ∙ rw (get_fat_entry-set_fat_entry v ok d x c 0 lt k)
                (first_or_later x c (has c xs) (fat v d c));
      }

  -- Freeing a chain of different clusters ends well: the entries of these clusters are free, no other
  -- entry has changed, the count of free clusters has grown by their number, and the search for free
  -- clusters starts from the first of them if that is lower than before. The table has its entry for
  -- each of them and the count does not overflow.
  pub free_cluster_chain_lem :
      (fuel : ℕ) (fs : Fs) (x : ℕ) (xs : List ℕ)
      → Chain (fat v fs.disk) x (x ∷ xs)
      → Distinct (x ∷ xs)
      → length (x ∷ xs) < fuel
      → fs.free_cluster_count + length (x ∷ xs) < u32
      → (fs' : Fs) × (free_cluster_chain fuel v fs x ≡ some (FsErr.success, fs'))
        × Frees (fat v fs.disk) (fat v fs'.disk) (x ∷ xs)
        × (fs'.free_cluster_count ≡ fs.free_cluster_count + length (x ∷ xs))
        × (fs'.available_clusters_start
            ≡ (if ltb x fs.available_clusters_start then x else fs.available_clusters_start))
  unfolding free_cluster_chain
  free_cluster_chain_lem fuel fs x xs chain distinct enough small =
      let r =
        free_loop-Freed fuel fs.disk x fs.free_cluster_count (x ∷ xs) chain distinct enough small in
      let s = record fs {
        disk = r.disk;
        available_clusters_start =
            if ltb x fs.available_clusters_start then x else fs.available_clusters_start;
        free_cluster_count = fs.free_cluster_count + length (x ∷ xs);
      } in
      let good : (r.stop == fat_bad_cluster) ≡ false = ground (arith, r.at_end) in
      (
        update_fsinfo v s,
        rw (r.runs, good) refl,
        λ c k. update_fsinfo-fat v ok s c k ∙ r.frees c k,
        unfold update_fsinfo in refl,
        unfold update_fsinfo in refl,
      )
