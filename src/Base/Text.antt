-- ===== src/Base/Text.antt =====
-- The bytes of a text, and comparison without regard to case.
use Prim.Native.Nat.{ℕ, zero, suc, ◌+◌, ◌/◌, ◌%◌}
use mathlib.Core.Bool.{Bool, true, ◌&&◌}
use Prim.Native.Char.{code}
use Prim.Native.String.{String}
use mathlib.Core.List.{List, [], ◌∷◌}
use scoreboard_ctrl.Base.Tests.{◌==◌, leb, ltb, if◌then◌else◌}
use scoreboard_ctrl.Base.Lists.{length}

-- The code points of a text; these are its bytes where it is ASCII, as every text here is.
abbrev pub codes : String → List ℕ
codes String.[] = []
codes (String.◌∷◌ c s) = code c ∷ codes s

-- `eq_ignore_ascii_case` compares the lower-case letters.
abbrev pub to_lower : ℕ → ℕ
to_lower c = if leb b'A' c && leb c b'Z' then c + 32 else c

-- `a.iter().zip(b).all(…)`
abbrev pub all_same : List ℕ → List ℕ → Bool
all_same [] ys = true
all_same (x ∷ xs) [] = true
all_same (x ∷ xs) (y ∷ ys) = to_lower x == to_lower y && all_same xs ys

abbrev pub eq_ignore_ascii_case : List ℕ → List ℕ → Bool
eq_ignore_ascii_case a b = length a == length b && all_same a b

-- A number as text, `{}`: its digits before `tail`. A round drops a digit, so `n` is enough fuel.
abbrev digits_before : ℕ → ℕ → List ℕ → List ℕ
digits_before zero n tail = (b'0' + n % 10) ∷ tail
digits_before (suc fuel) n tail =
    let more = digits_before fuel (n / 10) ((b'0' + n % 10) ∷ tail) in
    if ltb n 10 then (b'0' + n) ∷ tail else more

unfoldable pub decimal : ℕ → List ℕ
decimal n = digits_before n n []
