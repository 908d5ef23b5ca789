-- ===== src/Ramfs/Seek.antt =====
-- ramfs_file_seek_absolute and ramfs_file_read of kernel/src/filesystem/ramfs.c for ordinary files: the
-- position of a description, and the data node that is kept with it.
pub mod Reading
use kerosene.Base.{
  ℕ, zero, suc, ◌+◌, ◌-◌, ◌*◌, ◌%◌, ◌<◌, ◌≤◌, ◌≡◌, ◌⊎◌, refl, ◌∙◌, sym, ap, Bool-cases, inl, inr,
  true, false, not, ◌&&◌, Option, none, some, List, [], ◌∷◌, ◌++◌, length, take, drop,
  length-append, arith, ◌==◌, ltb, leb, if◌then◌else◌, ◌>>=◌,
}
use mathlib.Core.Path.{subst}
use kerosene.Base.Int.{ℤ, pos, negsuc}
use kerosene.Process.{Ptr, null}
use kerosene.Files.{FsErr}
use kerosene.Ramfs.{datanode_size, Nodes, read_file}
use kerosene.Ramfs.Read.{status, Gives, read_file-content}
use kerosene.Ramfs.Write.{ne_null}
use kerosene.Ramfs.Content.{Chain, Full, content, length-content, drop-append_ge}

-- What a description keeps: position and ramfs.current_datanode.
pub record Cursor : Type 0 where
  pub position : ℕ
  pub current_datanode : Ptr

-- `while(true)`: the node, and current_size.
unfoldable pub seek_loop : ℕ → (Ptr → Ptr) → Ptr → ℕ → ℕ → Option (Ptr × ℕ)
seek_loop zero next p current_size seek_position = none
seek_loop (suc fuel) next p current_size seek_position =
    let grown = current_size + datanode_size in
    let rest = seek_loop fuel next (next p) grown seek_position in
    if leb seek_position grown
    then some (p, current_size)
    else if not (next p == null)
    then rest
    else some (p, grown)

-- A negative position is taken for 0.
abbrev pub clamped : ℤ → ℕ
clamped (pos n) = n
clamped (negsuc n) = 0

unfoldable pub ramfs_file_seek_absolute : ℕ → (Ptr → Ptr) → Ptr → ℕ → Cursor → ℤ → Option Cursor
ramfs_file_seek_absolute fuel next datanode_chain size cursor offset = do
  let seek_position = clamped offset
  let forward = ltb cursor.position seek_position
  (p, current_size) ←
      seek_loop fuel next (if forward then cursor.current_datanode else datanode_chain)
        (if forward then cursor.position - cursor.position % datanode_size else 0) seek_position
  some (record {
    position = if ltb (current_size + datanode_size) seek_position then size else seek_position;
    current_datanode = p;
  })

abbrev pub offset_of : ℕ → ℕ
offset_of position =
    if not (position == 0) && (position % datanode_size == 0)
    then datanode_size
    else position % datanode_size

unfoldable pub ramfs_file_read :
    {W : Type 0} → ℕ → Nodes W → Cursor → ℕ → Option (FsErr × List ℕ × Ptr)
ramfs_file_read fuel s cursor size =
    read_file fuel s cursor.current_datanode size (offset_of cursor.position)

-- Where the loop ends, when the position lies in the chain from `p` on.
record Lands (o : Option (Ptr × ℕ)) (next : Ptr → Ptr) (xs : List Ptr) (base seek : ℕ)
    : Type 0 where
  at : Ptr
  before : List Ptr
  behind : List Ptr
  runs : o ≡ some (at, base + 512 * length before)
  split : xs ≡ before ++ at ∷ behind
  chain : Chain next at (at ∷ behind)
  reached : seek ≤ base + 512 * length before + 512
  first : (before ≡ []) ⊎ (base + 512 * length before < seek)

seek_loop-here :
    (fuel : ℕ) (next : Ptr → Ptr) (p : Ptr) (xs : List Ptr) (base seek : ℕ)
    → Chain next p (p ∷ xs)
    → seek ≤ base + 512
    → Lands (seek_loop (suc fuel) next p base seek) next (p ∷ xs) base seek
unfolding seek_loop
seek_loop-here fuel next p xs base seek c le =
    let here : leb seek (base + 512) ≡ true = ground (arith, le) in
    let e : base + 512 * 0 ≡ base = omega arith in
    record {
      at = p;
      before = [];
      behind = xs;
      runs = rw (here, e) refl;
      split = refl;
      chain = c;
      reached = omega (arith, le);
      first = inl refl;
    }

leb-cases : (a b : ℕ) → (a ≤ b) ⊎ ((b < a) × (leb a b ≡ false))
leb-cases a b = elim (Bool-cases (leb a b)) [
  | inl h ↦ inl (ground (arith, h))
  | inr h ↦ inr (ground (arith, h), h)
]

seek_loop-Lands :
    (fuel : ℕ) (next : Ptr → Ptr) (p : Ptr) (xs : List Ptr) (base seek : ℕ)
    → Chain next p (p ∷ xs)
    → seek ≤ base + 512 * length (p ∷ xs)
    → length xs < fuel
    → Lands (seek_loop fuel next p base seek) next (p ∷ xs) base seek
unfolding seek_loop
seek_loop-Lands zero next p xs base seek c inside enough = elim enough [ ]
seek_loop-Lands (suc fuel) next p [] base seek c inside enough =
    seek_loop-here fuel next p [] base seek c (omega (arith, inside))
seek_loop-Lands (suc fuel) next p (y ∷ ys) base seek (e, ne, (to, ny, chain)) inside enough =
    elim (leb-cases seek (base + 512)) [
      | inl le ↦ seek_loop-here fuel next p (y ∷ ys) base seek (e, ne, (to, ny, chain)) le
      | inr (lt, far) ↦
          let r =
            seek_loop-Lands fuel next y ys (base + 512) seek (refl, ny, chain)
              (omega (arith, inside)) (omega (arith, enough)) in
          let sum : base + 512 + 512 * length r.before ≡ base + 512 * suc (length r.before) =
            omega arith in
          record {
            at = r.at;
            before = p ∷ r.before;
            behind = r.behind;
            runs = rw (far, to, ne_null y ny, r.runs, sum) refl;
            split = ap (λ l. p ∷ l) r.split;
            chain = r.chain;
            reached = omega (arith, r.reached);
            first = inr (elim r.first [
              | inl empty ↦
                  let at_first : length r.before ≡ 0 = ap length empty in
                  omega (arith, at_first, lt)
              | inr below ↦ omega (arith, below)
            ]);
          }
    ]
