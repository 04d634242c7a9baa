-- ===== src/Base/Bytes.antt =====
-- Byte buffers as the code uses them. An access out of range is Rust's panic: such an operation
-- returns `panicked`, and everything behind it is skipped.
use Prim.Native.Nat.{ℕ, ◌+◌, ◌-◌, ◌≤◌, ◌<◌}
use mathlib.Core.Path.{◌≡◌, refl, ap, ap₂, ◌∙◌}
use mathlib.Core.Bool.{Bool, true, false, ◌&&◌}
use mathlib.Core.List.{List, [], ◌∷◌, ◌++◌, append_assoc}
use native.Mathlib.Nat.{zero-add, suc-add}
use native.Mathlib.Omega.{arith}
use scoreboard_ctrl.Base.Tests.{◌==◌, ltb, leb, lt→ltb, le→leb, if◌then◌else◌}
use scoreboard_ctrl.Base.Lists.{
  length, get_or, set, take, drop, replicate, length-append, take-append, drop-append,
}

pub data Run {ℓ} (A : Type ℓ) : Type ℓ where
  done : A → Run A
  panicked : Run A

infixl 5 ◌>>=◌
abbrev pub ◌>>=◌ {ℓ κ} : {A : Type ℓ} {B : Type κ} → Run A → (A → Run B) → Run B
done a >>= f = f a
panicked >>= f = panicked

abbrev pub assert {ℓ} : {A : Type ℓ} → Bool → A → Run A
assert b a = if b then done a else panicked

-- `buf[i]`.
unfoldable pub load : List ℕ → ℕ → Run ℕ
load buf i = assert (ltb i (length buf)) (get_or buf i 0)

-- `buf[i] = v`.
unfoldable pub store : List ℕ → ℕ → ℕ → Run (List ℕ)
store buf i v = assert (ltb i (length buf)) (set buf i v)

-- `&buf[a..b]`.
unfoldable pub slice : List ℕ → ℕ → ℕ → Run (List ℕ)
slice buf a b = assert (leb a b && leb b (length buf)) (take (b - a) (drop a buf))

-- `items` written from index `a` on.
abbrev pub overwrite : List ℕ → ℕ → List ℕ → List ℕ
overwrite buf a items = take a buf ++ (items ++ drop (a + length items) buf)

-- `buf[a..b].copy_from_slice(items)`.
unfoldable pub copy_from_slice : List ℕ → ℕ → ℕ → List ℕ → Run (List ℕ)
copy_from_slice buf a b items =
    assert (leb a b && leb b (length buf) && length items == b - a) (overwrite buf a items)

-- `buf[..n].fill(v)`.
unfoldable pub fill : List ℕ → ℕ → ℕ → Run (List ℕ)
fill buf n v = assert (leb n (length buf)) (overwrite buf 0 (replicate n v))

-- `buf[i] = v` for each pair of a list, in order.
unfoldable pub stores : List ℕ → List (ℕ × ℕ) → Run (List ℕ)
unfolding store
stores buf [] = done buf
stores buf ((i, v) ∷ ws) = do buf' ← store buf i v; stores buf' ws

pub load_lem : (buf : List ℕ) (i : ℕ) → i < length buf → load buf i ≡ done (get_or buf i 0)
unfolding load
load_lem buf i h = rw (lt→ltb _ _ h)

pub store_lem : (buf : List ℕ) (i v : ℕ) → i < length buf → store buf i v ≡ done (set buf i v)
unfolding store
store_lem buf i v h = rw (lt→ltb _ _ h)

pub slice_lem :
    (buf : List ℕ) (a b : ℕ)
    → a ≤ b
    → b ≤ length buf
    → slice buf a b ≡ done (take (b - a) (drop a buf))
unfolding slice
slice_lem buf a b h k = rw (le→leb _ _ h, le→leb _ _ k)

pub copy_from_slice_lem :
    (buf : List ℕ) (a b : ℕ) (items : List ℕ)
    → a ≤ b
    → b ≤ length buf
    → length items ≡ b - a
    → copy_from_slice buf a b items ≡ done (overwrite buf a items)
unfolding copy_from_slice
copy_from_slice_lem buf a b items h k e = ground arith

pub fill_lem :
    (buf : List ℕ) (n v : ℕ)
    → n ≤ length buf
    → fill buf n v ≡ done (overwrite buf 0 (replicate n v))
unfolding fill
fill_lem buf n v h = rw (le→leb _ _ h)

set-append : (pre xs : List ℕ) (k v : ℕ) → set (pre ++ xs) (length pre + k) v ≡ pre ++ set xs k v
set-append [] xs k v = rw zero-add
set-append (y ∷ pre) xs k v = rw suc-add (ap (◌∷◌ y) (set-append pre xs k v))

-- A store behind a prefix.
pub store-append :
    (pre xs : List ℕ) (k v i : ℕ)
    → k < length xs
    → i ≡ length pre + k
    → store (pre ++ xs) i v ≡ done (pre ++ set xs k v)
store-append pre xs k v i h e = rw (
  e,
  store_lem (pre ++ xs) (length pre + k) v (omega (arith, length-append pre xs)),
  set-append pre xs k v,
)

-- The code does not panic.
pub data Total {ℓ} {A : Type ℓ} (r : Run A) : Type ℓ where
  total : (a : A) → r ≡ done a → Total r

pub Total-done {ℓ} : {A : Type ℓ} (a : A) → Total (done a)
Total-done a = total a refl

pub Total-bind {ℓ κ} :
    {A : Type ℓ} {B : Type κ} (m : Run A) (f : A → Run B)
    → Total m
    → ((a : A) → m ≡ done a → Total (f a))
    → Total (m >>= f)
Total-bind m f (total a e) t = rw e (t a e)

pub Total-if {ℓ} :
    {A : Type ℓ} (b : Bool) (x y : Run A)
    → (b ≡ true → Total x)
    → (b ≡ false → Total y)
    → Total (if b then x else y)
Total-if true x y t f = t refl
Total-if false x y t f = f refl

get_or-append : (pre xs : List ℕ) (k : ℕ) → get_or (pre ++ xs) (length pre + k) 0 ≡ get_or xs k 0
get_or-append [] xs k = rw zero-add
get_or-append (y ∷ pre) xs k = rw suc-add (get_or-append pre xs k)

-- A load, and a slice, behind a prefix.
pub load-append :
    (pre xs : List ℕ) (k i : ℕ)
    → k < length xs
    → i ≡ length pre + k
    → load (pre ++ xs) i ≡ done (get_or xs k 0)
load-append pre xs k i h e = rw (
  e,
  load_lem (pre ++ xs) (length pre + k) (omega (arith, length-append pre xs)),
  get_or-append pre xs k,
)

pub slice-append :
    (pre seg post : List ℕ) (a b : ℕ)
    → a ≡ length pre
    → b ≡ a + length seg
    → slice (pre ++ (seg ++ post)) a b ≡ done seg
slice-append pre seg post a b e f =
    let size : length (pre ++ (seg ++ post)) ≡ length pre + (length seg + length post) =
      omega (arith, length-append pre (seg ++ post), length-append seg post) in
    let d : b - a ≡ length seg = omega arith in
    slice_lem (pre ++ (seg ++ post)) a b (omega arith) (omega arith)
    ∙ rw (d, e, drop-append pre (seg ++ post), take-append seg post)

-- A copy onto a segment of the same length, behind a prefix.
pub copy-append :
    (pre seg post items : List ℕ) (a b : ℕ)
    → a ≡ length pre
    → length items ≡ length seg
    → b ≡ a + length items
    → copy_from_slice (pre ++ (seg ++ post)) a b items ≡ done (pre ++ (items ++ post))
copy-append pre seg post items a b e f g =
    copy_from_slice_lem (pre ++ (seg ++ post)) a b items (omega arith) (omega (arith, size))
      (omega arith)
    ∙ ap₂ (λ front back. done (front ++ (items ++ back))) before behind
  where
    size : length (pre ++ (seg ++ post)) ≡ length pre + (length seg + length post)
    size = omega (arith, length-append pre (seg ++ post), length-append seg post)

    before : take a (pre ++ (seg ++ post)) ≡ pre
    before = rw e (take-append pre (seg ++ post))

    reach : length (pre ++ seg) ≡ a + length items
    reach = omega (arith, length-append pre seg)

    behind : drop (a + length items) (pre ++ (seg ++ post)) ≡ post
    behind = rw (← reach, ← append_assoc pre seg post) (drop-append (pre ++ seg) post)
