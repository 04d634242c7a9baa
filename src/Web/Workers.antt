-- ===== src/Web/Workers.antt =====
-- The pool of `web_task` of src/main.rs and its counter `HTTP_LIVE`, a u8 whose `fetch_add` and
-- `fetch_sub` wrap around.
use scoreboard_ctrl.Base.{
  ℕ, zero, suc, ◌+◌, ◌-◌, ◌%◌, ◌≤◌, min, ◌≡◌, refl, Bool, true, false, not, List, [], ◌∷◌, length,
  leb, ◌==◌, if◌then◌else◌, inl, inr, le_total, ap, arith,
}

abbrev pub web_task_pool_size : ℕ
web_task_pool_size = 12

-- The counter, and for each task whether it serves a connection.
pub record Pool : Type 0 where
  pub live : ℕ
  pub serving : List Bool

abbrev pub idle : ℕ → List Bool
idle zero = []
idle (suc n) = false ∷ idle n

abbrev pub start : Pool
start = record { live = 0; serving = idle web_task_pool_size }

-- What `web_task` logs, with the number it shows.
pub data Trace : Type 0 where
  tcp_full opened closed : ℕ → Trace

-- Behind `accept`.
unfoldable pub on_accept : ℕ → ℕ × Trace
on_accept live =
    let shown : ℕ = min (live + 1) 255 in
    ((live + 1) % 256, (if leb web_task_pool_size shown then tcp_full shown else opened shown))

-- Behind `serve`.
unfoldable pub on_served : ℕ → ℕ × Trace
on_served live = ((live + 255) % 256, closed (live - 1))

-- A task that waits accepts, and one that serves has served.
pub data Turns : List Bool → Bool → List Bool → Type 0 where
  here : (b : Bool) (rest : List Bool) → Turns (b ∷ rest) b (not b ∷ rest)
  there :
      (c : Bool) (tasks : List Bool) (b : Bool) (tasks' : List Bool)
      → Turns tasks b tasks'
      → Turns (c ∷ tasks) b (c ∷ tasks')

-- A step of one task, with what it logs.
pub data Step : Pool → Trace → Pool → Type 0 where
  accepts :
      (live : ℕ) (tasks tasks' : List Bool)
      → Turns tasks false tasks'
      → Step
          record { live = live; serving = tasks }
          (on_accept live).1
          record { live = (on_accept live).0; serving = tasks' }
  serves :
      (live : ℕ) (tasks tasks' : List Bool)
      → Turns tasks true tasks'
      → Step
          record { live = live; serving = tasks }
          (on_served live).1
          record { live = (on_served live).0; serving = tasks' }

pub data Steps : Pool → Type 0 where
  begin : Steps start
  next : (p : Pool) (t : Trace) (q : Pool) → Steps p → Step p t q → Steps q

-- How many tasks serve.
abbrev pub busy : List Bool → ℕ
busy [] = 0
busy (true ∷ tasks) = busy tasks + 1
busy (false ∷ tasks) = busy tasks

abbrev pub IsCounted : Pool → Type 0
IsCounted p = (p.live ≡ busy p.serving) × (length p.serving ≡ web_task_pool_size)

busy_le : (tasks : List Bool) → busy tasks ≤ length tasks
busy_le [] = omega arith
busy_le (true ∷ tasks) = omega (arith, busy_le tasks)
busy_le (false ∷ tasks) = omega (arith, busy_le tasks)

Turns-length : (xs : List Bool) (b : Bool) (ys : List Bool) → Turns xs b ys → length ys ≡ length xs
Turns-length xs b ys (here _ rest) = refl
Turns-length xs b ys (there c tasks _ tasks' t) = ap suc (Turns-length tasks b tasks' t)

accepted : (xs ys : List Bool) → Turns xs false ys → busy ys ≡ busy xs + 1
accepted xs ys (here _ rest) = refl
accepted xs ys (there true tasks _ tasks' t) = omega (arith, accepted tasks tasks' t)
accepted xs ys (there false tasks _ tasks' t) = accepted tasks tasks' t

served : (xs ys : List Bool) → Turns xs true ys → busy ys + 1 ≡ busy xs
served xs ys (here _ rest) = refl
served xs ys (there true tasks _ tasks' t) = omega (arith, served tasks tasks' t)
served xs ys (there false tasks _ tasks' t) = served tasks tasks' t

Step-IsCounted : (p : Pool) (t : Trace) (q : Pool) → Step p t q → IsCounted p → IsCounted q
unfolding on_accept on_served
Step-IsCounted p t q (accepts live xs ys m) c =
    let n = Turns-length xs false ys m in
    let k = busy_le xs in (omega (arith, accepted xs ys m, c.0, c.1, k), omega (arith, n, c.1))
Step-IsCounted p t q (serves live xs ys m) c =
    let n = Turns-length xs true ys m in
    let k = busy_le xs in (omega (arith, served xs ys m, c.0, c.1, k), omega (arith, n, c.1))

-- However the twelve tasks interleave, `HTTP_LIVE` is the number of tasks that serve a connection.
pub Steps-IsCounted : (p : Pool) → Steps p → IsCounted p
Steps-IsCounted p begin = (refl, refl)
Steps-IsCounted q (next p t _ s m) = Step-IsCounted p t q m (Steps-IsCounted p s)

abbrev pub shown : Trace → ℕ
shown (tcp_full n) = n
shown (opened n) = n
shown (closed n) = n

abbrev pub is_full : Trace → Bool
is_full (tcp_full n) = true
is_full (opened n) = false
is_full (closed n) = false

trace_lem :
    (n : ℕ)
    → n ≤ web_task_pool_size
    → let t = if leb web_task_pool_size n then tcp_full n else opened n in
      (shown t ≡ n) × (is_full t ≡ (n == web_task_pool_size))
trace_lem n h = elim (le_total web_task_pool_size n) [
  | inl full ↦ (let e : n ≡ 12 = omega arith in rw e (refl, refl))
  | inr room ↦ (let e : leb 12 n ≡ false = ground arith in rw e (refl, ground arith))
]

-- Every line of the log shows the number of tasks that serve after it, and only a line that says the pool is full stands
-- where all twelve do.
pub Step-shown :
    (p : Pool) (t : Trace) (q : Pool)
    → Steps p
    → Step p t q
    → (shown t ≡ busy q.serving) × (is_full t ≡ (busy q.serving == web_task_pool_size))
unfolding on_accept on_served
Step-shown p t q s m = go p t q m (Steps-IsCounted p s)
  where
    go :
        (p : Pool) (t : Trace) (q : Pool)
        → Step p t q
        → IsCounted p
        → (shown t ≡ busy q.serving) × (is_full t ≡ (busy q.serving == web_task_pool_size))
    go p t q (accepts live xs ys m) c =
        let count : min (live + 1) 255 ≡ busy ys =
          omega (arith, accepted xs ys m, c.0, c.1, busy_le xs) in
        rw count (trace_lem (busy ys) (omega (arith, busy_le ys, Turns-length xs false ys m, c.1)))
    go p t q (serves live xs ys m) c =
        (omega (arith, served xs ys m, c.0), ground (arith, served xs ys m, busy_le xs, c.1))
