-- ===== src/Ramfs/Write.antt =====
-- Writing over data nodes that are there, and what write_file does to the links.
use kerosene.Base.{
  ℕ, zero, suc, ◌+◌, ◌-◌, ◌*◌, ◌<◌, ◌≤◌, ◌≡◌, ◌≢◌, refl, ◌∙◌, sym, ap, inl, inr, Bool-cases, true,
  false, Option, some, List, [], ◌∷◌, ◌++◌, length, take, drop, length-drop, length-take,
  length-append, take-append-drop, arith, ◌==◌, ltb, leb, if◌then◌else◌,
}
use mathlib.Core.List.{append-nil, append_assoc}
use kerosene.Process.{Ptr, null}
use kerosene.Process.Queue.Chain.{has, Distinct, ne_of_not_has}
use kerosene.Files.{FsErr}
use kerosene.Ramfs.{Storage, Nodes, splice, write_block, write_loop}
use kerosene.Ramfs.Content.{
  Chain, Full, content, drop-append_le, drop-append_ge, take_all, drop_all,
}

pub content-frame :
    (b b' : Ptr → List ℕ) (xs : List Ptr)
    → ((a : Ptr) → has a xs ≡ true → b' a ≡ b a)
    → content b' xs ≡ content b xs
unfolding content
content-frame b b' [] same = refl
content-frame b b' (x ∷ xs) same =
    let here : b' x ≡ b x = same x (ground arith) in
    rw here (ap (λ l. b x ++ l) (content-frame b b' xs (λ a i. same a (ground (arith, i)))))

pub Full-frame :
    (b b' : Ptr → List ℕ) (xs : List Ptr)
    → ((a : Ptr) → has a xs ≡ true → b' a ≡ b a)
    → Full b xs
    → Full b' xs
Full-frame b b' [] same full = tt
Full-frame b b' (x ∷ xs) same (l, full) = (
  ap length (same x (ground arith)) ∙ l,
  Full-frame b b' xs (λ a i. same a (ground (arith, i))) full,
)

-- A write that ends well: all bytes are written, the links stay, and the content is `bytes` in its place.
pub record Written {W : Type 0} (o : Option (FsErr × ℕ × Ptr × Nodes W)) (s : Nodes W)
    (xs : List Ptr) (bytes after : List ℕ) : Type 0 where
  pub last : Ptr
  pub nodes : Nodes W
  pub runs : o ≡ some (FsErr.success, length bytes, last, nodes)
  pub links : nodes.next ≡ s.next
  pub written : content nodes.block xs ≡ after
  pub full : Full nodes.block xs
  pub others : (a : Ptr) → has a xs ≡ false → nodes.block a ≡ s.block a

pub length-splice :
    (offset : ℕ) (bytes b : List ℕ)
    → length b ≡ 512
    → offset + length bytes ≤ 512
    → length (splice offset bytes b) ≡ 512
length-splice offset bytes b l le = omega (
  arith,
  length-append (take offset b) (bytes ++ drop (offset + length bytes) b),
  length-append bytes (drop (offset + length bytes) b),
  length-take offset b,
  length-drop (offset + length bytes) b,
  l,
  le,
)

-- A write to one block leaves the blocks of the others.
pub write_block-others :
    {W : Type 0} (s : Nodes W) (x a : Ptr) (xs : List Ptr) (offset : ℕ) (bytes : List ℕ)
    → has x xs ≡ false
    → has a xs ≡ true
    → (write_block s x offset bytes).block a ≡ s.block a
write_block-others s x a xs offset bytes out i =
    let ne = ne_of_not_has a x xs i out in ground (arith, ne)

-- The tests of the loop where there is more than one block to write.
over :
    (n : ℕ)
    → leb n 512 ≡ false
    → ((if ltb n 512 then n else 512) ≡ 512) × ((n - 512 == 0) ≡ false) × (512 < n)
over n h = (ground (arith, h), ground (arith, h), ground (arith, h))

pub ne_null : (p : Ptr) → p ≢ null → (p == null) ≡ false
ne_null p ne = ground (arith, ne)

pub has_cons : (a x : Ptr) (xs : List Ptr) → has a (x ∷ xs) ≡ false → (a ≢ x) × (has a xs ≡ false)
has_cons a x xs out = (ground (arith, out), ground (arith, out))

write_block-whole :
    {W : Type 0} (s : Nodes W) (x : Ptr) (bytes : List ℕ)
    → length bytes ≡ 512
    → length (s.block x) ≡ 512
    → (write_block s x 0 bytes).block x ≡ bytes
write_block-whole s x bytes lb l =
    let nothing = drop_all (0 + length bytes) (s.block x) (omega (arith, lb, l)) in
    let at : (write_block s x 0 bytes).block x ≡ bytes ++ drop (0 + length bytes) (s.block x) =
      ground arith in
    at ∙ ap (λ r. bytes ++ r) nothing ∙ append-nil bytes

pub write_block-elsewhere :
    {W : Type 0} (s : Nodes W) (x a : Ptr) (offset : ℕ) (bytes : List ℕ)
    → a ≢ x
    → (write_block s x offset bytes).block a ≡ s.block a
write_block-elsewhere s x a offset bytes ne = ground (arith, ne)

-- The first block and the rest of the bytes, put over a content, are all of the bytes put over it.
join :
    (bytes b rest : List ℕ)
    → length b ≡ 512
    → 512 < length bytes
    → take 512 bytes ++ (drop 512 bytes ++ drop (length (drop 512 bytes)) rest)
      ≡ bytes ++ drop (length bytes) (b ++ rest)
join bytes b rest l more =
    let cut : drop (length bytes) (b ++ rest) ≡ drop (length bytes - 512) rest =
      drop-append_ge (length bytes) b rest (omega (arith, l, more)) ∙ rw l refl in
    rw (cut, length-drop 512 bytes)
      (sym (append_assoc (take 512 bytes) (drop 512 bytes) (drop (length bytes - 512) rest))
        ∙ ap (λ f. f ++ drop (length bytes - 512) rest) (take-append-drop 512 bytes))

module _ {W : Type 0} (storage : Storage W) where
  pub write_loop-fits :
      (fuel : ℕ) (s : Nodes W) (x : Ptr) (xs : List Ptr) (bytes : List ℕ)
      → Full s.block (x ∷ xs)
      → Distinct (x ∷ xs)
      → length bytes ≤ 512
      → Written
          (write_loop storage (suc fuel) s x bytes)
          s
          (x ∷ xs)
          bytes
          (bytes ++ drop (length bytes) (content s.block (x ∷ xs)))
  unfolding write_loop content
  write_loop-fits fuel s x xs bytes (l, full) (out, d) fits =
      let s₁ = write_block s x 0 bytes in
      let all : (if ltb (length bytes) 512 then length bytes else 512) ≡ length bytes =
        ground (arith, fits) in
      let done : (length bytes - length bytes == 0) ≡ true = ground arith in
      let whole = take_all (length bytes) bytes (omega arith) in
      let frame =
        content-frame s.block s₁.block xs (λ a i. write_block-others s x a xs 0 bytes out i) in
      let cut =
        drop-append_le (length bytes) (s.block x) (content s.block xs) (omega (arith, l, fits)) in
      let at : s₁.block x ≡ splice 0 bytes (s.block x) = ground arith in
      let here : s₁.block x ≡ bytes ++ drop (length bytes) (s.block x) = ground arith in
      record {
        last = x;
        nodes = s₁;
        runs = rw (all, done, whole) refl;
        links = refl;
        written = rw (here, frame, cut, append_assoc) refl;
        full = (
          ap length at ∙ length-splice 0 bytes (s.block x) l (omega (arith, fits)),
          Full-frame s.block s₁.block xs (λ a i. write_block-others s x a xs 0 bytes out i) full,
        );
        others = λ a i. ground (arith, i);
      }

  pub write_loop-Written :
      (fuel : ℕ) (s : Nodes W) (x : Ptr) (xs : List Ptr) (bytes : List ℕ)
      → Chain s.next x (x ∷ xs)
      → Full s.block (x ∷ xs)
      → Distinct (x ∷ xs)
      → length xs < fuel
      → length bytes ≤ 512 * length (x ∷ xs)
      → Written
          (write_loop storage fuel s x bytes)
          s
          (x ∷ xs)
          bytes
          (bytes ++ drop (length bytes) (content s.block (x ∷ xs)))
  unfolding write_loop content
  write_loop-Written zero s x xs bytes c full d enough room = elim enough [ ]
  write_loop-Written (suc fuel) s x [] bytes c full d enough room =
      write_loop-fits fuel s x [] bytes full d (omega (arith, room))
  write_loop-Written (suc fuel) s x (y ∷ ys) bytes (e, ne, (to, ny, chain)) (l, full) (out, d)
        enough room =
      elim (Bool-cases (leb (length bytes) 512)) [
        | inl fits ↦
            write_loop-fits fuel s x (y ∷ ys) bytes (l, full) (out, d) (ground (arith, fits))
        | inr more ↦
            let (part, not_done, gt) = over (length bytes) more in
            let first = take 512 bytes in
            let s₁ = write_block s x 0 first in
            let same = λ (a : Ptr) (i : has a (y ∷ ys) ≡ true).
              write_block-others s x a (y ∷ ys) 0 first out i in
            let full₁ : Full s₁.block (y ∷ ys) = Full-frame s.block s₁.block (y ∷ ys) same full in
            let frame = content-frame s.block s₁.block (y ∷ ys) same in
            let len : length first ≡ 512 = omega (arith, length-take 512 bytes, gt) in
            let left = length-drop 512 bytes in
            let r =
              write_loop-Written fuel s₁ y ys (drop 512 bytes) (refl, ny, chain) full₁ d
                (omega (arith, enough)) (omega (arith, room, left)) in
            let sum : 512 + length (drop 512 bytes) ≡ length bytes = omega (arith, left, gt) in
            let here : r.nodes.block x ≡ first =
              r.others x out ∙ write_block-whole s x first len l in
            record {
              last = r.last;
              nodes = r.nodes;
              runs = rw (part, not_done, to, ne_null y ny, r.runs, sum) refl;
              links = r.links;
              written =
                  rw (here, r.written, frame)
                    (join bytes (s.block x) (content s.block (y ∷ ys)) l gt);
              full = (ap length here ∙ len, r.full);
              others = λ a i.
                  let (ne, out) = has_cons a x (y ∷ ys) i in
                  r.others a out ∙ write_block-elsewhere s x a 0 first ne;
            }
      ]
