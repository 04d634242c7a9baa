-- ===== src/Typed.antt =====
-- The bytes that the services of src/net_services.rs send, as what a `u8` can hold. `On` says something of
-- the result of code that ends.
pub mod Names
pub mod Leases
pub mod Replies
use scoreboard_ctrl.Base.{
  ℕ, zero, suc, ◌+◌, ◌-◌, ◌%◌, ◌<◌, Bool, true, false, Option, none, some, List, [], ◌∷◌, ◌++◌,
  ◌&&◌, leb, ltb, ◌==◌, length, take, drop, set, replicate, Run, done, panicked, ◌>>=◌, assert,
  store, refl, ◌≡◌, stores, slice, overwrite, copy_from_slice, fill, if◌then◌else◌, arith,
}
use scoreboard_ctrl.Decode.Hex.{AllBytes}

abbrev pub On {ℓ} : {A : Type ℓ} → (A → Type 0) → Run A → Type 0
On P (done a) = P a
On P panicked = Unit

pub On-bind {ℓ κ} :
    {A : Type ℓ} {B : Type κ} (P : A → Type 0) (Q : B → Type 0) (m : Run A) (f : A → Run B)
    → On P m
    → ((a : A) → P a → On Q (f a))
    → On Q (m >>= f)
On-bind P Q (done a) f p g = g a p
On-bind P Q panicked f p g = tt

pub On-if {ℓ} :
    {A : Type ℓ} (P : A → Type 0) (b : Bool) (x y : Run A)
    → On P x
    → On P y
    → On P (if b then x else y)
On-if P true x y p q = p
On-if P false x y p q = q

On-assert : (P : List ℕ → Type 0) (b : Bool) (a : List ℕ) → P a → On P (assert b a)
On-assert P true a p = p
On-assert P false a p = tt

AllBytes-append : (xs ys : List ℕ) → AllBytes xs → AllBytes ys → AllBytes (xs ++ ys)
AllBytes-append [] ys p q = q
AllBytes-append (x ∷ xs) ys p q = (p.0, AllBytes-append xs ys p.1 q)

AllBytes-take : (n : ℕ) (xs : List ℕ) → AllBytes xs → AllBytes (take n xs)
AllBytes-take zero xs p = tt
AllBytes-take (suc n) [] p = tt
AllBytes-take (suc n) (x ∷ xs) p = (p.0, AllBytes-take n xs p.1)

AllBytes-drop : (n : ℕ) (xs : List ℕ) → AllBytes xs → AllBytes (drop n xs)
AllBytes-drop zero xs p = p
AllBytes-drop (suc n) [] p = tt
AllBytes-drop (suc n) (x ∷ xs) p = AllBytes-drop n xs p.1

AllBytes-set : (xs : List ℕ) (i v : ℕ) → AllBytes xs → v < 256 → AllBytes (set xs i v)
AllBytes-set [] i v p h = tt
AllBytes-set (x ∷ xs) zero v p h = (h, p.1)
AllBytes-set (x ∷ xs) (suc i) v p h = (p.0, AllBytes-set xs i v p.1 h)

pub AllBytes-replicate : (n v : ℕ) → v < 256 → AllBytes (replicate n v)
AllBytes-replicate zero v h = tt
AllBytes-replicate (suc n) v h = (h, AllBytes-replicate n v h)

overwrite-AllBytes :
    (buf : List ℕ) (a : ℕ) (items : List ℕ)
    → AllBytes buf
    → AllBytes items
    → AllBytes (overwrite buf a items)
overwrite-AllBytes buf a items p q =
    AllBytes-append (take a buf) (items ++ drop (a + length items) buf) (AllBytes-take a buf p)
      (AllBytes-append items _ q (AllBytes-drop (a + length items) buf p))

pub store-AllBytes : (buf : List ℕ) (i v : ℕ) → AllBytes buf → v < 256 → On AllBytes (store buf i v)
unfolding store
store-AllBytes buf i v p h =
    On-assert AllBytes (ltb i (length buf)) (set buf i v) (AllBytes-set buf i v p h)

abbrev pub AllValues : List (ℕ × ℕ) → Type 0
AllValues [] = Unit
AllValues ((i, v) ∷ ws) = (v < 256) × AllValues ws

pub stores-AllBytes :
    (buf : List ℕ) (ws : List (ℕ × ℕ)) → AllBytes buf → AllValues ws → On AllBytes (stores buf ws)
unfolding stores
stores-AllBytes buf [] p h = p
stores-AllBytes buf ((i, v) ∷ ws) p h =
    On-bind AllBytes AllBytes (store buf i v) _ (store-AllBytes buf i v p h.0)
      (λ b q. stores-AllBytes b ws q h.1)

pub slice-AllBytes : (buf : List ℕ) (a b : ℕ) → AllBytes buf → On AllBytes (slice buf a b)
unfolding slice
slice-AllBytes buf a b p =
    On-assert AllBytes (leb a b && leb b (length buf)) _
      (AllBytes-take (b - a) (drop a buf) (AllBytes-drop a buf p))

pub copy_from_slice-AllBytes :
    (buf : List ℕ) (a b : ℕ) (items : List ℕ)
    → AllBytes buf
    → AllBytes items
    → On AllBytes (copy_from_slice buf a b items)
unfolding copy_from_slice
copy_from_slice-AllBytes buf a b items p q =
    On-assert AllBytes (leb a b && leb b (length buf) && length items == b - a) _
      (overwrite-AllBytes buf a items p q)

pub fill-AllBytes : (buf : List ℕ) (n v : ℕ) → AllBytes buf → v < 256 → On AllBytes (fill buf n v)
unfolding fill
fill-AllBytes buf n v p h =
    On-assert AllBytes (leb n (length buf)) _
      (overwrite-AllBytes buf 0 (replicate n v) p (AllBytes-replicate n v h))

-- A buffer with the length of what is to be sent, and what is sent.
abbrev pub IsTyped : List ℕ × Option ℕ → Type 0
IsTyped (out, len) = AllBytes out

abbrev pub SendsBytes : Option (List ℕ) → Type 0
SendsBytes none = Unit
SendsBytes (some bytes) = AllBytes bytes

abbrev pub Any {ℓ} : {A : Type ℓ} → A → Type 0
Any a = Unit

pub any {ℓ} : {A : Type ℓ} (r : Run A) → On Any r
any (done a) = tt
any panicked = tt

pub sent-SendsBytes :
    (f : List ℕ × Option ℕ → Run (Option (List ℕ)))
    → ((out : List ℕ) → f (out, none) ≡ done none)
    → ((out : List ℕ) (len : ℕ) → f (out, some len) ≡ (slice out 0 len >>= λ b. done (some b)))
    → (r : Run (List ℕ × Option ℕ)) → On IsTyped r
    → On SendsBytes (r >>= f)
sent-SendsBytes f n s panicked t = tt
sent-SendsBytes f n s (done (out, none)) t = rw (n out) tt
sent-SendsBytes f n s (done (out, some len)) t =
    rw (s out len)
      (On-bind AllBytes SendsBytes (slice out 0 len) _ (slice-AllBytes out 0 len t) (λ b p. p))
