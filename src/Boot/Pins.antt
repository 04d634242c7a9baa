-- ===== src/Boot/Pins.antt =====
-- The pins of the RP2040 that `main` of src/main.rs gives to the outputs of `Io`.
use scoreboard_ctrl.Base.{
  ℕ, Bool, false, ◌||◌, ◌≡◌, refl, ap, Option, none, some, ◌==◌, if◌then◌else◌,
}
use scoreboard_ctrl.Board.{Pin}

-- `Io`
unfoldable pub new_io : Pin → ℕ
new_io Pin.start = 1
new_io Pin.home_inc = 2
new_io Pin.home_dec = 3
new_io Pin.away_inc = 4
new_io Pin.away_dec = 5
new_io Pin.reset = 6
new_io Pin.min_inc = 7
new_io Pin.min_dec = 8
new_io Pin.sec_inc = 9
new_io Pin.sec_dec = 10
new_io Pin.clear = 11
new_io Pin.aux = 13

-- The pins of the radio and those of the UART.
abbrev taken : ℕ → Bool
taken n = n == 23 || (n == 25 || (n == 24 || (n == 29 || (n == 20 || n == 21))))

abbrev output_at : ℕ → Option Pin
output_at n =
    if n == 1
    then some Pin.start
    else if n == 2
    then some Pin.home_inc
    else if n == 3
    then some Pin.home_dec
    else if n == 4
    then some Pin.away_inc
    else if n == 5
    then some Pin.away_dec
    else if n == 6
    then some Pin.reset
    else if n == 7
    then some Pin.min_inc
    else if n == 8
    then some Pin.min_dec
    else if n == 9
    then some Pin.sec_inc
    else if n == 10
    then some Pin.sec_dec
    else if n == 11
    then some Pin.clear
    else if n == 13
    then some Pin.aux
    else none

output_at-new_io : (p : Pin) → output_at (new_io p) ≡ some p
unfolding new_io
output_at-new_io Pin.start = refl
output_at-new_io Pin.home_inc = refl
output_at-new_io Pin.home_dec = refl
output_at-new_io Pin.away_inc = refl
output_at-new_io Pin.away_dec = refl
output_at-new_io Pin.reset = refl
output_at-new_io Pin.min_inc = refl
output_at-new_io Pin.min_dec = refl
output_at-new_io Pin.sec_inc = refl
output_at-new_io Pin.sec_dec = refl
output_at-new_io Pin.clear = refl
output_at-new_io Pin.aux = refl

-- No two outputs are at one pin.
new_io_injective : (p q : Pin) → new_io p ≡ new_io q → p ≡ q
new_io_injective p q e = cc (output_at-new_io p, output_at-new_io q, ap output_at e)

-- No output is at a pin of the radio or of the UART.
new_io_free : (p : Pin) → taken (new_io p) ≡ false
unfolding new_io
new_io_free Pin.start = refl
new_io_free Pin.home_inc = refl
new_io_free Pin.home_dec = refl
new_io_free Pin.away_inc = refl
new_io_free Pin.away_dec = refl
new_io_free Pin.reset = refl
new_io_free Pin.min_inc = refl
new_io_free Pin.min_dec = refl
new_io_free Pin.sec_inc = refl
new_io_free Pin.sec_dec = refl
new_io_free Pin.clear = refl
new_io_free Pin.aux = refl
