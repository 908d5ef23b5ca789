-- ===== src/Fat/File/Write/Layout.antt =====
-- Where the clusters of a volume lie on its disk.
use kerosene.Base.{
  ℕ, zero, suc, ◌⊎◌, ◌+◌, ◌-◌, ◌*◌, ◌^◌, ◌<◌, ◌≤◌, ◌≡◌, ◌≢◌, refl, ◌∙◌, sym, true, false, ◌&&◌,
  arith, ltb, leb, inl, inr, Bool-cases,
}
use kerosene.Base.Words.{u32, add32, sub32, mul32}
use kerosene.Fat.{Volume, Disk, ata_write, get_first_data_sector, get_total_clusters}
use kerosene.Fat.Entries.{fat, table, IsVolume, get_fat_entry-word}
use kerosene.Fat.Chains.Count.{top_cluster}
use kerosene.Fat.File.{first_sector, segment, cluster_bytes}
use kerosene.Fat.File.Read.{IsSized}
use kerosene.Fat.File.Write.{write_cluster}

-- The table has an entry for every cluster before the first data sector, and the last cluster ends where
-- 32 bits still number the sectors. There are fewer than 2^28 clusters.
pub record IsLaid (v : Volume) : Type 0 where
  pub volume : IsVolume v
  pub sized : IsSized v
  pub few : top_cluster v ≤ 2 ^ 28
  pub table_fits :
      512 * v.bootrec.reserved_sectors + 4 * top_cluster v ≤ 512 * get_first_data_sector v.bootrec
  pub disk_fits :
      v.lba_start
        + get_first_data_sector v.bootrec
        + get_total_clusters v.bootrec * v.bootrec.sectors_per_cluster
      < u32

-- Room for the clusters before cluster `c`, and for `c` itself.
span : (c n s : ℕ) → c < n → c * s + s ≤ n * s
span c n s lt = grind arith

sector_number :
    (l f c s n : ℕ)
    → 2 ≤ c
    → c < 2 + n
    → c < 2 ^ 28
    → l + f + n * s < u32
    → add32 l (add32 (mul32 (sub32 c 2) s) f) ≡ l + f + (c - 2) * s
sector_number l f c s n two lt small fits =
    let e : sub32 c 2 ≡ c - 2 = omega (arith, two, small) in
    let room = span (c - 2) n s (omega (arith, two, lt)) in rw e (omega (arith, room, fits))

module _ (v : Volume) (laid : IsLaid v) where
  pub first_sector-eq :
      (c : ℕ)
      → 2 ≤ c
      → c < top_cluster v
      → first_sector v c
        ≡ v.lba_start + get_first_data_sector v.bootrec + (c - 2) * v.bootrec.sectors_per_cluster
  unfolding first_sector
  first_sector-eq c two lt =
      sector_number v.lba_start (get_first_data_sector v.bootrec) c v.bootrec.sectors_per_cluster
        (get_total_clusters v.bootrec) two lt (omega (arith, lt, laid.few)) laid.disk_fits

segment-agree :
    (a b : ℕ → ℕ) (i n : ℕ) → ((j : ℕ) → j < i + n → a j ≡ b j) → segment a i n ≡ segment b i n
segment-agree a b i zero same = refl
segment-agree a b i (suc n) same =
    let rest = segment-agree a b (i + 1) n (λ j k. same j (omega (arith, k))) in
    rw (same i (omega arith), rest) refl

within :
    (d : Disk) (lba s j : ℕ) (b : ℕ → ℕ) → j < 512 * s → ata_write d lba s b (512 * lba + j) ≡ b j
within d lba s j b lt =
    let in_it : (leb (512 * lba) (512 * lba + j) && ltb (512 * lba + j) (512 * lba + 512 * s))
        ≡ true =
      ground (arith, lt) in
    let back : 512 * lba + j - 512 * lba ≡ j = omega arith in rw (in_it, back) refl

-- A byte before the sectors that are written, or behind them.
outside :
    (d : Disk) (lba s a : ℕ) (b : ℕ → ℕ)
    → (a < 512 * lba) ⊎ (512 * lba + 512 * s ≤ a)
    → ata_write d lba s b a ≡ d a
outside d lba s a b (inl lt) =
    let out : leb (512 * lba) a ≡ false = ground (arith, lt) in rw out refl
outside d lba s a b (inr ge) =
    let out : ltb a (512 * lba + 512 * s) ≡ false = ground (arith, ge) in
    let both : (leb (512 * lba) a && false) ≡ false = ground arith in rw (out, both) refl

side :
    (l s c x j : ℕ)
    → 2 ≤ c
    → 2 ≤ x
    → c ≢ x
    → j < 512 * s
    → (512 * (l + (x - 2) * s) + j < 512 * (l + (c - 2) * s))
      ⊎ (512 * (l + (c - 2) * s) + 512 * s ≤ 512 * (l + (x - 2) * s) + j)
side l s c x j two two' ne k = elim (Bool-cases (ltb x c)) [
  | inl lt ↦
      let room = span (x - 2) (c - 2) s (ground (arith, lt, two')) in inl (omega (arith, room, k))
  | inr ge ↦
      let room = span (c - 2) (x - 2) s (ground (arith, ge, two, ne)) in inr (omega (arith, room))
]

before_data :
    (l r f c m : ℕ) {n : ℕ}
    → 512 * r + 4 * n ≤ 512 * f
    → c < n
    → 512 * (l + r) + 4 * c + 3 < 512 * (l + f + m)
before_data l r f c m h lt = omega arith

module _ (v : Volume) (laid : IsLaid v) where
  -- Writing a cluster changes no entry of the table.
  pub write_cluster-fat :
      (d : Disk) (c : ℕ) (b : ℕ → ℕ) (x : ℕ)
      → 2 ≤ c
      → c < top_cluster v
      → x < top_cluster v
      → fat v (write_cluster v d c b) x ≡ fat v d x
  write_cluster-fat d c b x two lt k =
      let small : x < 2 ^ 28 = omega (arith, k, laid.few) in
      let a = table v + 4 * x in
      let s = v.bootrec.sectors_per_cluster in
      let far =
        before_data v.lba_start v.bootrec.reserved_sectors (get_first_data_sector v.bootrec) x
          ((c - 2) * s) laid.table_fits k in
      let place = first_sector-eq v laid c two lt in
      let same : (i : ℕ) → i ≤ 3 → write_cluster v d c b (a + i) ≡ d (a + i) =
        λ i le. outside d (first_sector v c) s (a + i) b (inl (omega (arith, far, place, le))) in
      let zero_on : a + 0 ≡ a = omega arith in
      let first : write_cluster v d c b a ≡ d a = rw zero_on at (same 0 (omega arith)) in
      get_fat_entry-word v laid.volume (write_cluster v d c b) x small
      ∙ rw (first, same 1 (omega arith), same 2 (omega arith), same 3 (omega arith))
          (sym (get_fat_entry-word v laid.volume d x small))

  -- The bytes of the cluster that is written.
  pub cluster_bytes-write_cluster_self :
      (d : Disk) (c : ℕ) (b : ℕ → ℕ)
      → cluster_bytes v (write_cluster v d c b) c
        ≡ segment b 0 (512 * v.bootrec.sectors_per_cluster)
  unfolding cluster_bytes
  cluster_bytes-write_cluster_self d c b =
      segment-agree _ b 0 (512 * v.bootrec.sectors_per_cluster)
        (λ j lt. within d (first_sector v c) v.bootrec.sectors_per_cluster j b (omega (arith, lt)))

  -- The bytes of another cluster.
  pub cluster_bytes-write_cluster_ne :
      (d : Disk) (c x : ℕ) (b : ℕ → ℕ)
      → 2 ≤ c
      → c < top_cluster v
      → 2 ≤ x
      → x < top_cluster v
      → c ≢ x
      → cluster_bytes v (write_cluster v d c b) x ≡ cluster_bytes v d x
  unfolding cluster_bytes
  cluster_bytes-write_cluster_ne d c x b two lt two' lt' ne =
      let s = v.bootrec.sectors_per_cluster in
      let place = first_sector-eq v laid c two lt in
      let place' = first_sector-eq v laid x two' lt' in
      segment-agree _ _ 0 (512 * s) (λ j k.
        outside d (first_sector v c) s (512 * first_sector v x + j) b (
          rw (place, place')
            (side (v.lba_start + get_first_data_sector v.bootrec) s c x j two two' ne
              (omega (arith, k)))))
