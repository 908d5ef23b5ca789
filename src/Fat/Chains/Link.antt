-- ===== src/Fat/Chains/Link.antt =====
-- The chains of clusters that a table holds.
use kerosene.Base.{
  ℕ, zero, suc, ◌^◌, ◌<◌, ◌≤◌, ◌≡◌, refl, ◌∙◌, true, false, some, List, [], ◌∷◌, ◌++◌, length,
  arith, ◌==◌, inl, inr, Bool-cases,
}
use kerosene.Process.Queue.Chain.{has, ◌∉◌}
use kerosene.Fat.{fat_eoc, fat_bad_cluster, Volume, Disk}
use kerosene.Fat.Entries.{fat, set_fat, IsVolume, get_fat_entry-set_fat_entry}
use kerosene.Fat.Chains.{leads_on, fat32_get_last_cluster_of_chain}

-- The numbers of data clusters.
abbrev pub IsCluster : ℕ → Type 0
IsCluster c = (2 ≤ c) × (c < fat_bad_cluster)

-- From `p` the entries lead through `xs` to an end mark.
abbrev pub Chain : (ℕ → ℕ) → ℕ → List ℕ → Type 0
Chain f p [] = fat_eoc ≤ p
Chain f p (x ∷ xs) = (p ≡ x) × IsCluster x × Chain f (f x) xs

abbrev pub Clusters : List ℕ → Type 0
Clusters [] = Unit
Clusters (x ∷ xs) = IsCluster x × Clusters xs

-- Two tables that agree on the clusters of a chain hold it both.
pub Chain-agree :
    (f g : ℕ → ℕ) (p : ℕ) (xs : List ℕ)
    → ((c : ℕ) → has c xs ≡ true → IsCluster c → g c ≡ f c)
    → Chain f p xs
    → Chain g p xs
Chain-agree f g p [] same end = end
Chain-agree f g p (x ∷ xs) same (e, is, chain) =
    let here : has x (x ∷ xs) ≡ true = ground arith in
    let tail = Chain-agree f g (f x) xs (λ c mem is_c. same c (ground (arith, mem)) is_c) chain in
    (e, is, rw (same x here is) tail)

-- So do two tables that agree everywhere.
pub Chain-same :
    (f g : ℕ → ℕ) (p : ℕ) (xs : List ℕ)
    → ((c : ℕ) → c < 2 ^ 28 → g c ≡ f c)
    → Chain f p xs
    → Chain g p xs
Chain-same f g p xs same chain =
    Chain-agree f g p xs (λ c mem is. same c (omega (arith, is.1))) chain

-- A chain continues behind its last cluster `e` where the entry of that cluster now leads.
pub Chain-append :
    (f g : ℕ → ℕ) (p e y : ℕ) (xs ys : List ℕ)
    → ((c : ℕ) → has c xs ≡ true → g c ≡ f c)
    → g e ≡ y
    → Chain f p (xs ++ e ∷ [])
    → Chain g y ys
    → Chain g p (xs ++ e ∷ ys)
Chain-append f g p e y [] ys same link (eq, is, end) behind = (eq, is, rw link behind)
Chain-append f g p e y (x ∷ xs) ys same link (eq, is, chain) behind =
    let here : has x (x ∷ xs) ≡ true = ground arith in
    let tail =
      Chain-append f g (f x) e y xs ys (λ c mem. same c (ground (arith, mem))) link chain behind in
    (eq, is, rw (same x here) tail)

pub Chain-Clusters : (f : ℕ → ℕ) (p : ℕ) (xs : List ℕ) → Chain f p xs → Clusters xs
Chain-Clusters f p [] chain = tt
Chain-Clusters f p (x ∷ xs) (e, is, chain) = (is, Chain-Clusters f (f x) xs chain)

pub Clusters-has : (c : ℕ) (xs : List ℕ) → Clusters xs → has c xs ≡ true → IsCluster c
Clusters-has c [] all mem = absurd (ground (arith, mem))
Clusters-has c (x ∷ xs) (is, all) mem = elim (Bool-cases (c == x)) [
  | inl same ↦ let e : c ≡ x = ground (arith, same) in rw e is
  | inr differ ↦ Clusters-has c xs all (rw differ at mem)
]

pub cluster_leads_on : (x : ℕ) → IsCluster x → leads_on x ≡ true
cluster_leads_on x is = ground arith

pub end_leads_on : (e : ℕ) → fat_eoc ≤ e → leads_on e ≡ false
end_leads_on e h = ground arith

pub Chain-leads_on :
    (f : ℕ → ℕ) (p : ℕ) (xs : List ℕ) (x : ℕ) → Chain f p (xs ++ x ∷ []) → leads_on p ≡ true
Chain-leads_on f p [] x (e, is, chain) = rw e (cluster_leads_on x is)
Chain-leads_on f p (y ∷ ys) x (e, is, chain) = rw e (cluster_leads_on y is)

pub apart : (r c : ℕ) (xs : List ℕ) → r ∉ xs → has c xs ≡ true → (r == c) ≡ false
apart r c xs out mem = elim (Bool-cases (r == c)) [
  | inl same ↦ let e : r ≡ c = ground (arith, same) in absurd (ground (arith, rw e at out, mem))
  | inr differ ↦ differ
]

module _ (v : Volume) (ok : IsVolume v) where
  -- Writing the entry of another cluster leaves a chain.
  pub Chain-set_fat :
      (d : Disk) (r val p : ℕ) (xs : List ℕ)
      → r < 2 ^ 28
      → r ∉ xs
      → Chain (fat v d) p xs
      → Chain (fat v (set_fat v d r val)) p xs
  Chain-set_fat d r val p xs lt out chain =
      Chain-agree (fat v d) (fat v (set_fat v d r val)) p xs
        (λ c mem is.
          get_fat_entry-set_fat_entry v ok d r c val lt (omega (arith, is.1))
          ∙ rw (apart r c xs out mem) refl)
        chain

  -- fat32_get_last_cluster_of_chain gives the last cluster of a chain.
  pub get_last_cluster_lem :
      (fuel : ℕ) (d : Disk) (p : ℕ) (xs : List ℕ) (x : ℕ)
      → Chain (fat v d) p (xs ++ x ∷ [])
      → length xs < fuel
      → fat32_get_last_cluster_of_chain fuel v d p ≡ some x
  unfolding fat32_get_last_cluster_of_chain
  get_last_cluster_lem zero d p xs x chain enough = elim enough [ ]
  get_last_cluster_lem (suc fuel) d p [] x (e, is, end) enough =
      rw (e, end_leads_on (fat v d x) end) refl
  get_last_cluster_lem (suc fuel) d p (y ∷ ys) x (e, is, chain) enough =
      let on = Chain-leads_on (fat v d) (fat v d y) ys x chain in
      rw (e, on) (get_last_cluster_lem fuel d (fat v d y) ys x chain (omega (arith, enough)))
