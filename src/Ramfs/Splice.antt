-- ===== src/Ramfs/Splice.antt =====
-- Bytes put over a content, block by block.
use kerosene.Base.{
  ℕ, ◌+◌, ◌-◌, ◌<◌, ◌≤◌, ◌≡◌, refl, ◌∙◌, sym, ap, List, [], ◌++◌, length, take, drop, length-drop,
  length-take, take-append-drop, arith,
}
use mathlib.Core.List.{append-nil, append_assoc}
use kerosene.Ramfs.{splice}
use kerosene.Ramfs.Content.{take-append_le, drop-append_le, drop-append_ge, drop_all}

pub splice_left :
    (offset : ℕ) (bytes b rest : List ℕ)
    → length b ≡ 512
    → offset + length bytes ≤ 512
    → splice offset bytes b ++ rest ≡ splice offset bytes (b ++ rest)
splice_left offset bytes b rest l le =
    let low = take-append_le offset b rest (omega (arith, l, le)) in
    let high = drop-append_le (offset + length bytes) b rest (omega (arith, l, le)) in
    rw (low, high, append_assoc, append_assoc) refl

pub splice_over :
    (offset : ℕ) (bytes b rest : List ℕ)
    → length b ≡ 512
    → offset < 512
    → 512 < offset + length bytes
    → let first = take (512 - offset) bytes in
      let more = drop (512 - offset) bytes in
      splice offset first b ++ (more ++ drop (length more) rest) ≡ splice offset bytes (b ++ rest)
splice_over offset bytes b rest l lt over =
    let first = take (512 - offset) bytes in
    let more = drop (512 - offset) bytes in
    let low = take-append_le offset b rest (omega (arith, l, lt)) in
    let len : length first ≡ 512 - offset =
      omega (arith, length-take (512 - offset) bytes, over, lt) in
    let nothing : drop (offset + length first) b ≡ [] =
      drop_all (offset + length first) b (omega (arith, len, l, lt)) in
    let high : drop (offset + length bytes) (b ++ rest) ≡ drop (length more) rest =
      drop-append_ge (offset + length bytes) b rest (omega (arith, l, over))
      ∙ ap (λ n. drop n rest) (omega (arith, length-drop (512 - offset) bytes, l, over, lt)) in
    let whole : first ++ (more ++ drop (length more) rest) ≡ bytes ++ drop (length more) rest =
      sym (append_assoc first more (drop (length more) rest))
      ∙ ap (λ f. f ++ drop (length more) rest) (take-append-drop (512 - offset) bytes) in
    rw (nothing, append-nil, low, high)
      (append_assoc (take offset b) first (more ++ drop (length more) rest)
        ∙ ap (λ f. take offset b ++ f) whole)
