-- ===== src/Ramfs/Cut.antt =====
-- write_file where it fills a block from its start on: the chain behind the first node is replaced.
use kerosene.Base.{
  ℕ, suc, ◌+◌, ◌-◌, ◌/◌, ◌<◌, ◌≤◌, ◌≡◌, ◌≢◌, refl, ◌∙◌, sym, inl, inr, Bool-cases, true, false,
  Option, some, List, [], ◌∷◌, length, take, drop, length-drop, arith, ◌==◌, ltb,
}
use kerosene.Process.{Ptr, null}
use kerosene.Process.Queue.Chain.{has, Distinct, ne_of_not_has}
use kerosene.Files.{FsErr}
use kerosene.Ramfs.{
  Storage, Nodes, set_next, write_block, allocate_datanodes, write_loop, write_rest, write_at,
  write_file,
}
use kerosene.Ramfs.Content.{Chain}
use kerosene.Ramfs.Write.{ne_null}

-- A write that ends well on a chain that is now the nodes `x` and `n`, without those of `tail`; the
-- other links are as in `s`.
pub record CutOff {W : Type 0} (o : Option (FsErr × ℕ × Ptr × Nodes W)) (s : Nodes W) (x n : Ptr)
    (tail : List Ptr) (bytes : List ℕ) : Type 0 where
  pub last : Ptr
  pub nodes : Nodes W
  pub runs : o ≡ some (FsErr.success, length bytes, last, nodes)
  pub chain : Chain nodes.next x (x ∷ n ∷ [])
  pub lost : (a : Ptr) → has a tail ≡ true → has a (x ∷ n ∷ []) ≡ false
  pub others : (a : Ptr) → a ≢ x → a ≢ n → nodes.next a ≡ s.next a

-- What the last loop leaves of 512 to 1023 bytes, at a node with one more behind it.
record TwoBlocks {W : Type 0} (o : Option (FsErr × ℕ × Ptr × Nodes W)) (s : Nodes W)
    (bytes : List ℕ) : Type 0 where
  last : Ptr
  nodes : Nodes W
  runs : o ≡ some (FsErr.success, length bytes, last, nodes)
  links : nodes.next ≡ s.next

module _ {W : Type 0} (storage : Storage W) where
  write_loop-short :
      (fuel : ℕ) (s : Nodes W) (p : Ptr) (bytes : List ℕ)
      → length bytes < 512
      → write_loop storage (suc fuel) s p bytes
        ≡ some (FsErr.success, length bytes, p, write_block s p 0 (take (length bytes) bytes))
  unfolding write_loop
  write_loop-short fuel s p bytes lt =
      let all : ltb (length bytes) 512 ≡ true = ground (arith, lt) in
      let done : (length bytes - length bytes == 0) ≡ true = ground arith in rw (all, done) refl

  one_step :
      (fuel : ℕ) (s : Nodes W) (p : Ptr) (bytes : List ℕ)
      → 512 ≤ length bytes
      → (length bytes - 512 == 0) ≡ true
      → write_loop storage (suc fuel) s p bytes
        ≡ some (FsErr.success, length bytes, p, write_block s p 0 (take 512 bytes))
  unfolding write_loop
  one_step fuel s p bytes ge done =
      let whole : ltb (length bytes) 512 ≡ false = ground (arith, ge) in
      let size : length bytes ≡ 512 = ground (arith, ge, done) in rw (whole, done, size) refl

  two_steps :
      (fuel : ℕ) (s : Nodes W) (p : Ptr) (bytes : List ℕ)
      → let s₁ = write_block s p 0 (take 512 bytes) in
        let l = length (drop 512 bytes) in
        let s₂ = write_block s₁ (s.next p) 0 (take l (drop 512 bytes)) in
        ltb (length bytes) 512 ≡ false
        → (length bytes - 512 == 0) ≡ false
        → (s.next p == null) ≡ false
        → 512 + l ≡ length bytes
        → write_loop storage fuel s₁ (s.next p) (drop 512 bytes)
          ≡ some (FsErr.success, l, s.next p, s₂)
        → write_loop storage (suc fuel) s p bytes ≡ some (FsErr.success, length bytes, s.next p, s₂)
  unfolding write_loop
  two_steps fuel s p bytes whole on real sum rest = rw (whole, on, real, rest, sum) refl

  -- One data node.
  allocate_one :
      (s : Nodes W)
      → (storage.rmalloc s.world).0 ≢ null
      → allocate_datanodes storage s 1 false
        ≡ some (
          (storage.rmalloc s.world).0,
          set_next
              (record s { world = (storage.rmalloc s.world).1 })
              (storage.rmalloc s.world).0
              null,
        )
  unfolding allocate_datanodes
  allocate_one s got = rw (ne_null (storage.rmalloc s.world).0 got) refl

  write_loop-two :
      (fuel : ℕ) (s : Nodes W) (p : Ptr) (bytes : List ℕ)
      → 512 ≤ length bytes
      → length bytes < 1024
      → s.next p ≢ null
      → TwoBlocks (write_loop storage (suc (suc fuel)) s p bytes) s bytes
  write_loop-two fuel s p bytes ge lt more =
      let whole : ltb (length bytes) 512 ≡ false = ground (arith, ge) in
      let s₁ = write_block s p 0 (take 512 bytes) in
      let left : length (drop 512 bytes) ≡ length bytes - 512 =
        omega (arith, length-drop 512 bytes) in
      let rest = write_loop-short fuel s₁ (s.next p) (drop 512 bytes) (omega (arith, left, lt)) in
      let real : (s.next p == null) ≡ false = ne_null (s.next p) more in
      elim (Bool-cases (length bytes - 512 == 0)) [
        | inl done ↦ record {
          last = p;
          nodes = s₁;
          runs = one_step (suc fuel) s p bytes ge done;
          links = refl;
        }
        | inr on ↦
            let l : ℕ = length (drop 512 bytes) in
            record {
              last = s.next p;
              nodes = write_block s₁ (s.next p) 0 (take l (drop 512 bytes));
              runs = two_steps (suc fuel) s p bytes whole on real (omega (arith, left, ge)) rest;
              links = refl;
            }
      ]

  -- With fuel for two rounds, a write of 512 to 1023 bytes from the start of the first node of a chain
  -- of two nodes or more, all different, where rmalloc gives a node that is not among them: all is
  -- written, and the chain then is the first node and the new one, so that the nodes that followed the
  -- first one are no longer in the file. No other link changes.
  pub write_file-CutOff :
      (fuel : ℕ) (s : Nodes W) (x m : Ptr) (ms : List Ptr) (bytes : List ℕ)
      → Chain s.next x (x ∷ m ∷ ms)
      → 512 ≤ length bytes
      → length bytes < 1024
      → (storage.rmalloc s.world).0 ≢ null
      → has (storage.rmalloc s.world).0 (x ∷ m ∷ ms) ≡ false
      → Distinct (x ∷ m ∷ ms)
      → CutOff
          (write_file storage (suc (suc fuel)) s x bytes 0)
          s
          x
          (storage.rmalloc s.world).0
          (m ∷ ms)
          bytes
  unfolding write_file write_at write_rest
  write_file-CutOff fuel s x m ms bytes chain ge lt got fresh apart =
      let n = (storage.rmalloc s.world).0 in
      let s₁ = set_next (record s { world = (storage.rmalloc s.world).1 }) n null in
      let s₂ = set_next s₁ x n in
      let one : length bytes / 512 ≡ 1 = omega (arith, ge, lt) in
      let ne : n ≢ x = ground (arith, fresh) in
      let linked : s₂.next x ≡ n = ground arith in
      let two = write_loop-two fuel s₂ x bytes ge lt (λ e. got (sym linked ∙ e)) in
      let real : (n == null) ≡ false = ne_null n got in
      record {
        last = two.last;
        nodes = two.nodes;
        runs = rw (one, allocate_one s got, real, two.runs) (ground arith);
        chain = rw two.links (refl, chain.1, (linked, got, ground (arith, ne)));
        lost = λ a i.
            let ne_x = ne_of_not_has a x (m ∷ ms) i apart.0 in
            let ne_n = ne_of_not_has a n (m ∷ ms) i (ground (arith, fresh)) in
            ground (arith, ne_x, ne_n);
        others = λ a p q. rw two.links (ground (arith, p, q));
      }
