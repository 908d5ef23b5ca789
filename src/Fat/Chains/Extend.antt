-- ===== src/Fat/Chains/Extend.antt =====
-- The free clusters that fat32_allocate_clusters of kernel/src/filesystem/fat32.c finds, and the chain it
-- makes of them.
use kerosene.Base.{
  ℕ, zero, suc, ◌+◌, ◌^◌, ◌<◌, ◌≤◌, ◌≡◌, refl, ◌∙◌, true, false, List, [], ◌∷◌, take, arith, ◌==◌,
  inl, inr, Bool-cases,
}
use kerosene.Process.Queue.Chain.{has, ◌∉◌, Distinct}
use kerosene.Fat.{fat_eoc, fat_bad_cluster, Volume, Disk}
use kerosene.Fat.Entries.{fat, set_fat, IsVolume, get_fat_entry-set_fat_entry}
use kerosene.Fat.Chains.Link.{Chain}
use kerosene.Fat.Chains.Allocate.{free_from, last, link_all}
use kerosene.Fat.Chains.Count.{Below}

-- Free entries in ascending order between two bounds.
abbrev pub Ascends : (ℕ → ℕ) → ℕ → ℕ → List ℕ → Type 0
Ascends f low top [] = Unit
Ascends f low top (x ∷ xs) = (low ≤ x) × (x < top) × (f x ≡ 0) × Ascends f (x + 1) top xs

pub Ascends-mono :
    (f : ℕ → ℕ) (low low' top top' : ℕ) (xs : List ℕ)
    → low' ≤ low
    → top ≤ top'
    → Ascends f low top xs
    → Ascends f low' top' xs
Ascends-mono f low low' top top' [] h k a = tt
Ascends-mono f low low' top top' (x ∷ xs) h k (ge, lt, z, a) = (
  omega (arith, h, ge),
  omega (arith, k, lt),
  z,
  Ascends-mono f (x + 1) (x + 1) top top' xs (omega arith) k a,
)

pub free_from-Ascends : (f : ℕ → ℕ) (k n i : ℕ) → Ascends f i (i + n) (take k (free_from f i n))
unfolding free_from
free_from-Ascends f zero n i = tt
free_from-Ascends f (suc k) zero i = tt
free_from-Ascends f (suc k) (suc n) i = elim (Bool-cases (f i == 0)) [
  | inl free ↦
      let rest = free_from-Ascends f k n (i + 1) in
      rw free (
        omega arith,
        omega arith,
        ground (arith, free),
        Ascends-mono f (i + 1) (i + 1) (i + 1 + n) (i + suc n) (take k (free_from f (i + 1) n))
            (omega arith) (omega arith) rest,
      )
  | inr used ↦
      let rest = free_from-Ascends f (suc k) n (i + 1) in
      rw used (
        Ascends-mono f (i + 1) i (i + 1 + n) (i + suc n) (take (suc k) (free_from f (i + 1) n))
          (omega arith) (omega arith) rest)
]

pub Ascends-below :
    (f : ℕ → ℕ) (low top : ℕ) (xs : List ℕ) (c : ℕ) → Ascends f low top xs → c < low → c ∉ xs
Ascends-below f low top [] c a lt = refl
Ascends-below f low top (x ∷ xs) c (ge, k, z, a) lt =
    let other : (c == x) ≡ false = ground (arith, lt, ge) in
    rw (other, Ascends-below f (x + 1) top xs c a (omega (arith, lt, ge))) refl

pub Ascends-Distinct : (f : ℕ → ℕ) (low top : ℕ) (xs : List ℕ) → Ascends f low top xs → Distinct xs
Ascends-Distinct f low top [] a = tt
Ascends-Distinct f low top (x ∷ xs) (ge, lt, z, a) =
    (Ascends-below f (x + 1) top xs x a (omega arith), Ascends-Distinct f (x + 1) top xs a)

pub Ascends-free :
    (f : ℕ → ℕ) (low top : ℕ) (xs : List ℕ) (c : ℕ)
    → Ascends f low top xs
    → has c xs ≡ true
    → f c ≡ 0
Ascends-free f low top [] c a mem = absurd (ground (arith, mem))
Ascends-free f low top (x ∷ xs) c (ge, lt, z, a) mem = elim (Bool-cases (c == x)) [
  | inl same ↦ let e : c ≡ x = ground (arith, same) in rw e z
  | inr differ ↦ Ascends-free f (x + 1) top xs c a (rw differ at mem)
]

pub Ascends-Below : (f : ℕ → ℕ) (low top : ℕ) (xs : List ℕ) → Ascends f low top xs → Below top xs
Ascends-Below f low top [] a = tt
Ascends-Below f low top (x ∷ xs) (ge, lt, z, a) = (lt, Ascends-Below f (x + 1) top xs a)

module _ (v : Volume) (ok : IsVolume v) where
  -- The clusters `ys` linked behind `p`, and the last of them marked as the end.
  abbrev pub closed : Disk → ℕ → List ℕ → Disk
  closed d p ys = set_fat v (link_all v d p ys) (last p ys) fat_eoc

  pub closed-others :
      (f : ℕ → ℕ) (low top : ℕ) (d : Disk) (p : ℕ) (ys : List ℕ) (c : ℕ)
      → Ascends f low top (p ∷ ys)
      → top ≤ 2 ^ 28
      → c < 2 ^ 28
      → c ∉ (p ∷ ys)
      → fat v (closed d p ys) c ≡ fat v d c
  unfolding link_all
  closed-others f low top d p [] c (ge, lt, z, a) small k out =
      let other : (p == c) ≡ false = ground (arith, out) in
      get_fat_entry-set_fat_entry v ok d p c fat_eoc (omega (arith, lt, small)) k ∙ rw other refl
  closed-others f low top d p (y ∷ ys) c (ge, lt, z, a) small k out =
      let other : (p == c) ≡ false = ground (arith, out) in
      closed-others f (p + 1) top (set_fat v d p y) y ys c a small k (ground (arith, out))
      ∙ get_fat_entry-set_fat_entry v ok d p c y (omega (arith, lt, small)) k
      ∙ rw other refl

  pub closed-Chain :
      (f : ℕ → ℕ) (low top : ℕ) (d : Disk) (p : ℕ) (ys : List ℕ)
      → Ascends f low top (p ∷ ys)
      → 2 ≤ low
      → top ≤ fat_bad_cluster
      → Chain (fat v (closed d p ys)) p (p ∷ ys)
  unfolding link_all
  closed-Chain f low top d p [] (ge, lt, z, a) two small =
      let k : p < 2 ^ 28 = omega (arith, lt, small) in
      let self : (p == p) ≡ true = ground arith in
      (
        refl,
        (omega (arith, ge, two), omega (arith, lt, small)),
        rw (get_fat_entry-set_fat_entry v ok d p p fat_eoc k k, self) (omega arith),
      )
  closed-Chain f low top d p (y ∷ ys) (ge, lt, z, a) two small =
      let k : p < 2 ^ 28 = omega (arith, lt, small) in
      let self : (p == p) ≡ true = ground arith in
      let d' = set_fat v d p y in
      let next : fat v (closed d' y ys) p ≡ y =
        closed-others f (p + 1) top d' y ys p a (omega (arith, small)) k
          (Ascends-below f (p + 1) top (y ∷ ys) p a (omega arith))
        ∙ get_fat_entry-set_fat_entry v ok d p p y k k
        ∙ rw self (omega (arith, a.1, small)) in
      (
        refl,
        (omega (arith, ge, two), omega (arith, lt, small)),
        rw next (closed-Chain f (p + 1) top d' y ys a (omega (arith, ge, two)) small),
      )
