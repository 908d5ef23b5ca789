-- ===== src/Fat/Chains/Cut.antt =====
-- cut_cluster_chain of kernel/src/filesystem/fat32.c.
use kerosene.Base.{
  ℕ, ◌+◌, ◌^◌, ◌<◌, ◌≡◌, ◌≢◌, refl, ◌∙◌, true, false, some, List, [], ◌∷◌, length, arith, ◌==◌, leb,
  if◌then◌else◌,
}
use kerosene.Base.Words.{u32}
use kerosene.Process.Queue.Chain.{has, Distinct}
use kerosene.Files.{FsErr}
use kerosene.Fat.{fat_eoc, fat_bad_cluster, Volume, Fs}
use kerosene.Fat.Entries.{fat, set_fat, IsVolume, get_fat_entry-set_fat_entry}
use kerosene.Fat.Chains.{cut_cluster_chain}
use kerosene.Fat.Chains.Link.{IsCluster, Chain}
use kerosene.Fat.Chains.Free.{free_cluster_chain_lem}

-- The cluster `x` has become a chain of its own, the clusters `xs` are free, `n` more than before are
-- counted as free, and every other entry is as it was.
pub record Cut (v : Volume) (fs fs' : Fs) (x : ℕ) (xs : List ℕ) : Type 0 where
  pub alone : Chain (fat v fs'.disk) x (x ∷ [])
  pub frees :
      (c : ℕ) → c < 2 ^ 28 → c ≢ x → fat v fs'.disk c ≡ (if has c xs then 0 else fat v fs.disk c)
  pub counted : fs'.free_cluster_count ≡ fs.free_cluster_count + length xs

inner_cluster : (y : ℕ) → IsCluster y → (leb fat_eoc y ≡ false) × ((y == fat_bad_cluster) ≡ false)
inner_cluster y is = ground arith

module _ (v : Volume) (ok : IsVolume v) where
  -- Cutting a chain of different clusters behind its first one ends well and leaves the first cluster as a
  -- chain of its own; the clusters behind it are free and counted as such, and every other entry is as it
  -- was. The count does not overflow.
  pub cut_cluster_chain_lem :
      (fuel : ℕ) (fs : Fs) (x : ℕ) (xs : List ℕ)
      → Chain (fat v fs.disk) x (x ∷ xs)
      → Distinct (x ∷ xs)
      → length xs < fuel
      → fs.free_cluster_count + length xs < u32
      → (fs' : Fs) × (cut_cluster_chain fuel v fs x ≡ some (FsErr.success, fs')) × Cut v fs fs' x xs
  unfolding cut_cluster_chain
  cut_cluster_chain_lem fuel fs x [] (e, is, end) distinct enough small =
      let stop : leb fat_eoc (fat v fs.disk x) ≡ true = ground (arith, end) in
      (
        fs,
        rw stop refl,
        record { alone = (e, is, end); frees = λ c k ne. refl; counted = omega arith },
      )
  cut_cluster_chain_lem fuel fs x (y ∷ ys) (e, is, (to, is_y, chain)) (out, distinct) enough small =
      let self : (x == x) ≡ true = ground arith in
      let (not_end, not_bad) = inner_cluster y is_y in
      let lt : x < 2 ^ 28 = omega (arith, is.1) in
      let (fs₁, runs, frees, count, start) =
        free_cluster_chain_lem v ok fuel fs y ys (refl, is_y, chain) distinct enough small in
      let fs' = record fs₁ { disk = set_fat v fs₁.disk x fat_eoc } in
      (
        fs',
        rw (to, not_end, not_bad, runs) refl,
        record {
          alone = (
            refl,
            is,
            rw (get_fat_entry-set_fat_entry v ok fs₁.disk x x fat_eoc lt lt, self) (omega arith),
          );
          frees = λ c k ne.
              get_fat_entry-set_fat_entry v ok fs₁.disk x c fat_eoc lt k
              ∙ let other : (x == c) ≡ false = ground (arith, ne) in rw other (frees c k);
          counted = count;
        },
      )
