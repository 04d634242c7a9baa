-- ===== src/Base/Writes.antt =====
-- Rows of writes at constant indices, as one change of the buffer.
use Prim.Native.Nat.{ℕ, zero, suc, ◌+◌, ◌≤◌, ◌<◌}
use mathlib.Core.Path.{◌≡◌, refl, sym, ap, ◌∙◌}
use mathlib.Core.List.{List, [], ◌∷◌, ◌++◌, append_assoc}
use native.Mathlib.Omega.{arith}
use scoreboard_ctrl.Base.Lists.{
  length, set, take, drop, length-set, length-append, length-take, take-append-drop,
}
use scoreboard_ctrl.Base.Bytes.{done, stores, store_lem, store-append, copy_from_slice, copy-append}

-- The buffer after a row of writes.
abbrev pub sets : List ℕ → List (ℕ × ℕ) → List ℕ
sets xs [] = xs
sets xs ((i, v) ∷ ws) = sets (set xs i v) ws

abbrev pub AllBelow : ℕ → List (ℕ × ℕ) → Type 0
AllBelow n [] = Unit
AllBelow n ((i, v) ∷ ws) = (i < n) × AllBelow n ws

pub stores_lem :
    (ws : List (ℕ × ℕ)) (xs : List ℕ) → AllBelow (length xs) ws → stores xs ws ≡ done (sets xs ws)
unfolding stores
stores_lem [] xs a = refl
stores_lem ((i, v) ∷ ws) xs a =
    rw (store_lem xs i v a.0) (stores_lem ws (set xs i v) (rw (length-set xs i v) a.1))

pub stores-cons :
    (xs : List ℕ) (i v : ℕ) (ws : List (ℕ × ℕ))
    → i < length xs
    → stores xs ((i, v) ∷ ws) ≡ stores (set xs i v) ws
unfolding stores
stores-cons xs i v ws h = rw (store_lem xs i v h)

-- The writes `ws` are the writes `ks`, behind a prefix of length `n`.
abbrev pub Behind : ℕ → List (ℕ × ℕ) → List (ℕ × ℕ) → Type 0
Behind n [] [] = Unit
Behind n ((i, v) ∷ ws) ((k, w) ∷ ks) = (i ≡ n + k) × (v ≡ w) × Behind n ws ks
Behind n [] (k ∷ ks) = ⊥
Behind n (w ∷ ws) [] = ⊥

pub stores-append :
    (pre xs : List ℕ) (ws ks : List (ℕ × ℕ))
    → Behind (length pre) ws ks
    → AllBelow (length xs) ks
    → stores (pre ++ xs) ws ≡ done (pre ++ sets xs ks)
unfolding stores
stores-append pre xs [] [] b a = refl
stores-append pre xs ((i, v) ∷ ws) ((k, w) ∷ ks) b a =
    rw (store-append pre xs k v i a.0 b.0, b.1)
      (stores-append pre (set xs k w) ws ks b.2 (rw (length-set xs k w) a.1))
stores-append pre xs [] (k ∷ ks) b a = absurd b
stores-append pre xs (w ∷ ws) [] b a = absurd b

set-behind :
    (pre : List ℕ) (x : ℕ) (xs : List ℕ) (v n : ℕ)
    → n ≡ length pre
    → set (pre ++ (x ∷ xs)) n v ≡ pre ++ (v ∷ xs)
set-behind [] x xs v n e = rw e refl
set-behind (p ∷ pre) x xs v zero e = absurd (omega arith)
set-behind (p ∷ pre) x xs v (suc n) e = ap (◌∷◌ p) (set-behind pre x xs v n (omega arith))

-- The values `vs` one behind the other, from index `n` on.
abbrev pub from : ℕ → List ℕ → List (ℕ × ℕ)
from n [] = []
from n (v ∷ vs) = (n, v) ∷ from (n + 1) vs

from-AllBelow : (n m : ℕ) (vs : List ℕ) → n + length vs ≤ m → AllBelow m (from n vs)
from-AllBelow n m [] h = tt
from-AllBelow n m (v ∷ vs) h = (omega arith, from-AllBelow (n + 1) m vs (omega arith))

sets-from :
    (vs pre xs : List ℕ) (n : ℕ)
    → n ≡ length pre
    → length vs ≤ length xs
    → sets (pre ++ xs) (from n vs) ≡ pre ++ (vs ++ drop (length vs) xs)
sets-from [] pre xs n e h = refl
sets-from (v ∷ vs) pre [] n e h = absurd (omega arith)
sets-from (v ∷ vs) pre (x ∷ xs) n e h =
    let next =
      sets-from vs (pre ++ (v ∷ [])) xs (n + 1) (omega (arith, length-append pre (v ∷ [])))
        (omega arith) in
    ap (λ ys. sets ys (from (n + 1) vs))
      (set-behind pre x xs v n e ∙ sym (append_assoc pre (v ∷ []) xs))
    ∙ next
    ∙ append_assoc pre (v ∷ []) (vs ++ drop (length vs) xs)

-- A row of values written behind a prefix.
pub stores-front :
    (pre xs vs : List ℕ) (ws : List (ℕ × ℕ))
    → Behind (length pre) ws (from 0 vs)
    → length vs ≤ length xs
    → stores (pre ++ xs) ws ≡ done (pre ++ (vs ++ drop (length vs) xs))
stores-front pre xs vs ws b h =
    stores-append pre xs ws (from 0 vs) b (from-AllBelow 0 (length xs) vs (omega arith))
    ∙ ap (λ ys. done (pre ++ ys)) (sets-from vs [] xs 0 refl h)

-- A copy behind a prefix.
pub copy-front :
    (pre xs items : List ℕ) (a b : ℕ)
    → a ≡ length pre
    → length items ≤ length xs
    → b ≡ a + length items
    → copy_from_slice (pre ++ xs) a b items ≡ done (pre ++ (items ++ drop (length items) xs))
copy-front pre xs items a b e h f =
    let n = length items in
    ap (λ ys. copy_from_slice (pre ++ ys) a b items) (sym (take-append-drop n xs))
    ∙ copy-append pre (take n xs) (drop n xs) items a b e (omega (arith, length-take n xs)) f
