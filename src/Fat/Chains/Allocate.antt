-- ===== src/Fat/Chains/Allocate.antt =====
-- fat32_allocate_clusters and expand_cluster_chain of kernel/src/filesystem/fat32.c.
use kerosene.Base.{
  ℕ, zero, suc, ◌+◌, ◌-◌, ◌^◌, ◌<◌, ◌≤◌, ◌≡◌, ◌≢◌, refl, ◌∙◌, false, some, List, [], ◌∷◌, length,
  take, length-take, arith, ◌==◌, if◌then◌else◌, ap, inl, inr, Bool-cases,
}
use kerosene.Base.Words.{u32, add32, sub32}
use kerosene.Fat.{Volume, Disk}
use kerosene.Fat.Entries.{fat, set_fat, IsVolume, get_fat_entry-set_fat_entry}
use kerosene.Fat.Chains.{allocate_loop}

-- The free clusters among `n` from cluster `i` on, in order.
unfoldable pub free_from : (ℕ → ℕ) → ℕ → ℕ → List ℕ
free_from f i zero = []
free_from f i (suc n) = let rest = free_from f (i + 1) n in if f i == 0 then i ∷ rest else rest

free_from-agree :
    (f g : ℕ → ℕ) (n i : ℕ)
    → ((c : ℕ) → i ≤ c → c < i + n → g c ≡ f c)
    → free_from g i n ≡ free_from f i n
unfolding free_from
free_from-agree f g zero i same = refl
free_from-agree f g (suc n) i same =
    let rest =
      free_from-agree f g n (i + 1) (λ c ge k. same c (omega (arith, ge)) (omega (arith, k))) in
    rw (same i (omega arith) (omega arith), rest) refl

shorter : (k : ℕ) (xs ys : List ℕ) → take k xs ≡ ys → k ≤ length ys → k ≤ length xs
shorter k xs ys e le = omega (arith, length-take k xs, ap (λ (l : List ℕ). length l) e, le)

sub_zero : (n : ℕ) → n - 0 ≡ n
sub_zero n = omega arith

-- The last of a chain that begins with `x`.
abbrev pub last : ℕ → List ℕ → ℕ
last x [] = x
last x (y ∷ ys) = last y ys

module _ (v : Volume) where
  -- The clusters `ys` linked behind `p` one after the other.
  unfoldable pub link_all : Disk → ℕ → List ℕ → Disk
  link_all d p [] = d
  link_all d p (y ∷ ys) = link_all (set_fat v d p y) y ys

module _ (v : Volume) (ok : IsVolume v) where
  -- Entries from `i` on are not touched by a link from below.
  free_from-set_fat :
      (d : Disk) (p val i n : ℕ)
      → p < i
      → i + n ≤ 2 ^ 28
      → free_from (fat v (set_fat v d p val)) i n ≡ free_from (fat v d) i n
  free_from-set_fat d p val i n lt top =
      free_from-agree (fat v d) (fat v (set_fat v d p val)) n i (λ c ge k.
        let other : (p == c) ≡ false = ground (arith, lt, ge) in
        get_fat_entry-set_fat_entry v ok d p c val (omega (arith, lt, top)) (omega (arith, k, top))
        ∙ rw other refl)

  -- The loop once it has found its first cluster: it links the next `k` free clusters.
  allocate_loop-link_all :
      (n fuel : ℕ) (d : Disk) (k i start prev free : ℕ)
      → n < fuel
      → start ≢ 0
      → prev < i
      → (k ≡ 0 → i ≡ prev + 1)
      → i + n < 2 ^ 28
      → k ≤ length (free_from (fat v d) i n)
      → k ≤ free
      → free < u32
      → allocate_loop fuel v d k i start prev free
        ≡ some (
          link_all v d prev (take k (free_from (fat v d) i n)),
          start,
          last prev (take k (free_from (fat v d) i n)) + 1,
          free - k,
        )
  unfolding allocate_loop link_all free_from
  allocate_loop-link_all n zero d k i start prev free enough real lt done top le fits small =
      elim enough [ ]
  allocate_loop-link_all n (suc fuel) d zero i start prev free enough real lt done top le fits
        small =
      rw (done refl, sub_zero free) refl
  allocate_loop-link_all zero (suc fuel) d (suc k) i start prev free enough real lt done top le fits
        small =
      absurd (omega (arith, le))
  allocate_loop-link_all (suc n) (suc fuel) d (suc k) i start prev free enough real lt done top le
        fits small =
      let next : add32 i 1 ≡ i + 1 = omega (arith, top) in
      let more : (suc k == 0) ≡ false = ground arith in
      let begun : (start == 0) ≡ false = ground (arith, real) in
      elim (Bool-cases (fat v d i == 0)) [
        | inl found ↦
            let same =
              free_from-set_fat d prev i (i + 1) n (omega (arith, lt)) (omega (arith, top)) in
            let less : sub32 free 1 ≡ free - 1 = omega (arith, fits, small) in
            let one : suc k - 1 ≡ k = omega arith in
            let left : free - 1 - k ≡ free - suc k = omega arith in
            let rest = rw found at le in
            let ih =
              allocate_loop-link_all n fuel (set_fat v d prev i) k (i + 1) start i (free - 1)
                (omega (arith, enough)) real (omega arith) (λ z. refl) (omega (arith, top))
                (rw same (omega (arith, rest))) (omega (arith, fits)) (omega (arith, small)) in
            rw (found, begun, next, less, one, more) (ih ∙ rw (same, left) refl)
        | inr taken ↦
            rw (taken, next, more)
              (allocate_loop-link_all n fuel d (suc k) (i + 1) start prev free
                (omega (arith, enough)) real (omega (arith, lt)) (λ z. absurd (omega (arith, z)))
                (omega (arith, top)) (rw taken at le) fits small)
      ]

  -- The loop from its start on, with `ys` the clusters that it is to find.
  pub allocate_loop-first :
      (n fuel : ℕ) (d : Disk) (k i free y : ℕ) (ys : List ℕ)
      → n < fuel
      → 0 < i
      → i + n < 2 ^ 28
      → take (suc k) (free_from (fat v d) i n) ≡ y ∷ ys
      → k ≤ length ys
      → suc k ≤ free
      → free < u32
      → allocate_loop fuel v d (suc k) i 0 0 free
        ≡ some (link_all v d y ys, y, last y ys + 1, free - suc k)
  unfolding allocate_loop free_from
  allocate_loop-first n zero d k i free y ys enough low top found le fits small = elim enough [ ]
  allocate_loop-first zero (suc fuel) d k i free y ys enough low top found le fits small =
      absurd (cc found)
  allocate_loop-first (suc n) (suc fuel) d k i free y ys enough low top found le fits small =
      let next : add32 i 1 ≡ i + 1 = omega (arith, top) in
      let more : (suc k == 0) ≡ false = ground arith in
      elim (Bool-cases (fat v d i == 0)) [
        | inl here ↦
            let less : sub32 free 1 ≡ free - 1 = omega (arith, fits, small) in
            let one : suc k - 1 ≡ k = omega arith in
            let left : free - 1 - k ≡ free - suc k = omega arith in
            let list = rw here at found in
            let first : i ≡ y = cc list in
            let others : take k (free_from (fat v d) (i + 1) n) ≡ ys = cc list in
            let ih =
              allocate_loop-link_all n fuel d k (i + 1) i i (free - 1) (omega (arith, enough))
                (omega (arith, low)) (omega arith) (λ z. refl) (omega (arith, top))
                (shorter k (free_from (fat v d) (i + 1) n) ys others le) (omega (arith, fits))
                (omega (arith, small)) in
            rw (here, next, less, one, more) (ih ∙ rw (others, left, first) refl)
        | inr taken ↦
            rw (taken, next, more)
              (allocate_loop-first n fuel d k (i + 1) free y ys (omega (arith, enough))
                (omega arith) (omega (arith, top)) (rw taken at found) le fits small)
      ]
