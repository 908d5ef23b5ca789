-- ===== src/Heap/Free.antt =====
-- heap_free as a whole: what is left of the regions, and the growth and shrinking of the heap's end.
use kerosene.Base.{
  ℕ, ◌+◌, ◌<◌, ◌≤◌, ◌≡◌, refl, sym, ◌∙◌, ap, ◌≢◌, ◌⊎◌, inl, inr, Bool, Bool-cases, true, false, not,
  ◌&&◌, List, [], ◌∷◌, ◌++◌, arith, ◌==◌,
}
use mathlib.Core.List.{append_assoc}
use kerosene.Base.Words.{u32}
use kerosene.Process.{Ptr, null}
use kerosene.Process.Queue.Chain.{last}
use kerosene.Heap.{
  heap_free, header_size, Header, next_header, put, absorb, merge_next, merge_prev, merge,
}
use kerosene.Heap.Regions.{Regions, Regions-from, Regions-le}
use kerosene.Heap.Merge.{
  IsTiled, Linked-from, absorb_lem, absorb-IsTiled, mark-IsTiled, after_next, merge_next-NextMerged,
}

last_snoc : (d b : Ptr) (bs : List Ptr) → last d (bs ++ b ∷ []) ≡ b
last_snoc d b [] = refl
last_snoc d b (c ∷ bs) = last_snoc c b bs

snoc_cases : (xs : List Ptr) → (xs ≡ []) ⊎ ((bs : List Ptr) × (b : Ptr) × (xs ≡ bs ++ b ∷ []))
snoc_cases [] = inl refl
snoc_cases (x ∷ xs) = elim (snoc_cases xs) [
  | inl e ↦ inr ([], x, rw e refl)
  | inr (bs, b, e) ↦ inr (x ∷ bs, b, ap (λ l. x ∷ l) e)
]

-- The last of the regions is free.
abbrev pub ends_free : (Ptr → Header) → List Ptr → Bool
ends_free hs before = not (last null before == null) && ((hs (last null before)).magic == heap_free)

-- What is left once the region at `x` is free: `r` has the headers and the region that holds it, and
-- `behind` are the regions behind it.
pub record Freed (r : (Ptr → Header) × Ptr) (hs : Ptr → Header) (end : ℕ) (first x : Ptr)
    (before behind : List Ptr) : Type 0 where
  pub kept : List Ptr
  pub split :
      ((ends_free hs before ≡ false) × (kept ≡ before) × (r.1 ≡ x))
      ⊎ ((ends_free hs before ≡ true) × (kept ++ r.1 ∷ [] ≡ before))
  pub tiled : IsTiled r.0 end first (kept ++ r.1 ∷ behind)
  pub is_free : (r.0 r.1).magic ≡ heap_free
  pub covers : (r.1 ≤ x) × (next_header hs x ≤ next_header r.0 r.1)
  pub others : (a : Ptr) → a ≢ x → (r.0 a).magic ≡ (hs a).magic

-- Without a free region before it.
alone-Freed :
    (hs hs₂ : Ptr → Header) (end : ℕ) (first x : Ptr) (before behind : List Ptr)
    → IsTiled hs₂ end first (before ++ x ∷ behind)
    → (hs₂ x).magic ≡ heap_free
    → ((a : Ptr) → a ≢ x → (hs₂ a).magic ≡ (hs a).magic)
    → (hs x).size ≤ (hs₂ x).size
    → ends_free hs before ≡ false
    → Freed (hs₂, x) hs end first x before behind
alone-Freed hs hs₂ end first x before behind t free magics grows apart = record {
  kept = before;
  split = inl (apart, refl, refl);
  tiled = t;
  is_free = free;
  covers = (omega arith, omega arith);
  others = magics;
}

snoc-Freed :
    (hs hs₂ : Ptr → Header) (end : ℕ) (first b x : Ptr) (bs behind : List Ptr)
    → IsTiled hs₂ end first (bs ++ b ∷ x ∷ behind)
    → end < u32
    → 0 < first
    → (hs₂ b).magic ≡ heap_free
    → ((a : Ptr) → a ≢ x → (hs₂ a).magic ≡ (hs a).magic)
    → (hs x).size ≤ (hs₂ x).size
    → Freed (absorb hs₂ end b x, b) hs end first x (bs ++ b ∷ []) behind
snoc-Freed hs hs₂ end first b x bs behind t small pos free magics grows =
    let (_, b_lt, (at, x_lt, tail)) = (Regions-from hs₂ end first b bs (x ∷ behind) t.regions).1 in
    let n_le = Regions-le hs₂ end (next_header hs₂ x) behind tail in
    let lem = λ (a : ℕ). absorb_lem hs₂ end b x a (sym at) (omega (arith, n_le)) in
    let ne : b ≢ x = omega (arith, at) in
    let low = (Regions-from hs₂ end first b bs (x ∷ behind) t.regions).0 in
    let was_free : (hs b).magic ≡ heap_free = sym (magics b ne) ∙ free in
    let size : (absorb hs₂ end b x b).size ≡ (hs₂ b).size + (hs₂ x).size + header_size =
      ground (arith, lem b) in
    record {
      kept = bs;
      split = inr (rw (last_snoc null b bs) (ground (arith, was_free, low, pos)), refl);
      tiled = absorb-IsTiled hs₂ end first b x bs behind t small;
      is_free = (lem b).2 ∙ free;
      covers = (omega (arith, at), omega (arith, at, size, grows));
      others = λ a ne. (lem a).2 ∙ magics a ne;
    }

merge_prev-Freed :
    (hs hs₂ : Ptr → Header) (end : ℕ) (first x : Ptr) (before behind : List Ptr)
    → IsTiled hs₂ end first (before ++ x ∷ behind)
    → end < u32
    → 0 < first
    → (hs₂ x).magic ≡ heap_free
    → ((a : Ptr) → a ≢ x → (hs₂ a).magic ≡ (hs a).magic)
    → (hs x).size ≤ (hs₂ x).size
    → Freed (merge_prev hs₂ end x) hs end first x before behind
unfolding merge_prev
merge_prev-Freed hs hs₂ end first x before behind t small pos free magics grows =
    let link : (hs₂ x).prev ≡ last null before =
      (Linked-from hs₂ null x before behind t.linked).0 in
    elim (snoc_cases before) [
      | inl alone ↦
          let null_link : (hs₂ x).prev ≡ null = link ∙ rw alone refl in
          rw null_link
            (alone-Freed hs hs₂ end first x before behind t free magics grows (rw alone refl))
      | inr (bs, b, e) ↦
          let prev : (hs₂ x).prev ≡ b = link ∙ (rw e (last_snoc null b bs)) in
          let t' : IsTiled hs₂ end first (bs ++ b ∷ x ∷ behind) = rw (e, append_assoc) at t in
          let low = (Regions-from hs₂ end first b bs (x ∷ behind) t'.regions).0 in
          let real : (b == null) ≡ false = ground (arith, low) in
          let (_, b_lt, (at, x_lt, tail)) =
            (Regions-from hs₂ end first b bs (x ∷ behind) t'.regions).1 in
          let same : (hs₂ b).magic ≡ (hs b).magic = magics b (omega (arith, at)) in
          elim (Bool-cases ((hs₂ b).magic == heap_free)) [
            | inl join ↦
                rw (prev, real, join, e)
                  (snoc-Freed hs hs₂ end first b x bs behind t' small pos (ground arith) magics
                    grows)
            | inr apart ↦
                rw (prev, real, apart)
                  (alone-Freed hs hs₂ end first x before behind t free magics grows
                    (rw (e, last_snoc null b bs) (ground (arith, apart, same))))
          ]
    ]

same_after :
    (hs : Ptr → Header) (end : ℕ) (x : Ptr) (h : Header) (after : List Ptr)
    → Regions hs end (next_header hs x) after
    → after_next (put hs x h) after ≡ after_next hs after
same_after hs end x h [] r = refl
same_after hs end x h (y ∷ ys) (e, lt, r) = ground (arith, e)

-- In a heap below 2^32 whose regions follow one another without a gap, each knowing the one before it,
-- freeing a region joins it with the next one, exactly if that is free, and with the one before,
-- exactly if there is one that is free. The regions again follow one another without a gap, each knowing the one before it; the
-- joined region is free and holds all of the freed one, and no other region is marked.
pub merge-Freed :
    (hs : Ptr → Header) (end : ℕ) (first x : Ptr) (before after : List Ptr)
    → IsTiled hs end first (before ++ x ∷ after)
    → end < u32
    → 0 < first
    → Freed (merge hs end x) hs end first x before (after_next hs after)
unfolding merge
merge-Freed hs end first x before after t small pos =
    let free : Header = record (hs x) { magic = heap_free } in
    let hs₁ = put hs x free in
    let t₁ : IsTiled hs₁ end first (before ++ x ∷ after) =
      mark-IsTiled hs end first x (before ++ x ∷ after) t in
    let n = merge_next-NextMerged hs₁ end first x before after t₁ small in
    let size_x : (hs₁ x).size ≡ (hs x).size = ground arith in
    let tail = (Regions-from hs end first x before after t.regions).1.2 in
    merge_prev-Freed hs (merge_next hs₁ end x) end first x before (after_next hs after)
      (rw (same_after hs end x free after tail) at n.tiled) small pos (n.magics x ∙ ground arith)
      (λ a ne. n.magics a ∙ ground arith) (omega (arith, n.grows, size_x))
