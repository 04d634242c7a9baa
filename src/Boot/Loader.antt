-- ===== src/Boot/Loader.antt =====
-- `main` of bootloader/src/main.rs, behind the calls of embassy-boot that prepare the boot: the
-- registers that it writes before it loads the program.
use Prim.Native.Nat.{digits, bit_and-bitwise}
use scoreboard_ctrl.Base.{
  ℕ, zero, suc, ◌+◌, ◌-◌, ◌*◌, ◌/◌, ◌%◌, ◌^◌, ◌≤◌, ◌<◌, min, bit_and, ◌≡◌, refl, ap, ◌∙◌, Bool,
  true, false, ◌&&◌, ◌==◌, if◌then◌else◌, arith,
}

-- `FLASH_BASE` of the RP2040.
abbrev pub flash_base : ℕ
flash_base = 0x10000000

-- Bits of a u32; `!(1 << 30)`.
abbrev pub not_enable : ℕ
not_enable = 2 ^ 32 - 1 - 2 ^ 30

-- The new value of `WATCHDOG_CTRL`.
unfoldable pub stop_watchdog : ℕ → ℕ
stop_watchdog v = bit_and v not_enable

-- `WATCHDOG_CTRL`, the set of enabled and of pending interrupts, whether PRIMASK masks them all, and the
-- address that is loaded, 0 before.
pub record Machine : Type 0 where
  pub watchdog_ctrl : ℕ
  pub iser : ℕ
  pub ispr : ℕ
  pub primask : Bool
  pub loaded : ℕ

-- A write of `0xFFFF_FFFF` to `icer` or `icpr` clears all of the set.
unfoldable pub bootloader_main : ℕ → Machine → Machine
bootloader_main active_offset m = record m {
  watchdog_ctrl = stop_watchdog m.watchdog_ctrl;
  iser = 0;
  ispr = 0;
  primask = false;
  loaded = (flash_base + active_offset) % 2 ^ 32;
}

-- The bit of the given number.
abbrev pub bit : ℕ → ℕ → ℕ
bit a zero = a % 2
bit a (suc i) = bit (a / 2) i

abbrev both : ℕ → ℕ → ℕ → ℕ
both fuel a b = digits (λ _. zero) min fuel a b

bit_zero : (i : ℕ) → bit 0 i ≡ 0
bit_zero zero = refl
bit_zero (suc i) = bit_zero i

half : (x d : ℕ) → d ≤ 1 → (x * 2 + d) / 2 ≡ x
half x d h = omega arith

bit-both : (n a b i : ℕ) → a ≤ n → bit (both n a b) i ≡ min (bit a i) (bit b i)
bit-both zero zero b i h = omega (arith, bit_zero i)
bit-both (suc n) zero b i h = omega (arith, bit_zero i)
bit-both zero (suc a) b i h = absurd (omega arith)
bit-both (suc n) (suc a) b zero h = omega arith
bit-both (suc n) (suc a) b (suc i) h =
    ap (λ x. bit x i) (half (both n (suc a / 2) (b / 2)) (min (suc a % 2) (b % 2)) (omega arith))
    ∙ bit-both n (suc a / 2) (b / 2) i (omega arith)

-- The bits of the mask, of which there are 32.
mask_tested : ℕ → Bool
mask_tested zero = true
mask_tested (suc n) = (bit not_enable n == (if n == 30 then 0 else 1)) && mask_tested n

bit-mask : (n i : ℕ) → mask_tested n ≡ true → i < n → bit not_enable i ≡ (if i == 30 then 0 else 1)
unfolding mask_tested
bit-mask zero i t h = absurd (omega arith)
bit-mask (suc n) i t h = ground (arith, bit-mask n i)

bit_le : (a i : ℕ) → bit a i ≤ 1
bit_le a zero = omega arith
bit_le a (suc i) = bit_le (a / 2) i

all_tested : mask_tested 32 ≡ true
unfolding mask_tested
all_tested = refl

-- Behind `stop_watchdog` the bit that enables the watchdog is 0 and every other bit of the register is as
-- it was.
pub bit-stop_watchdog :
    (v i : ℕ) → i < 32 → bit (stop_watchdog v) i ≡ (if i == 30 then 0 else bit v i)
unfolding stop_watchdog
bit-stop_watchdog v i h =
    ap (λ x. bit x i) (bit_and-bitwise v not_enable)
    ∙ bit-both v v not_enable i (omega arith)
    ∙ ap (min (bit v i)) (bit-mask 32 i all_tested h)
    ∙ kept (i == 30) (bit v i) (bit_le v i)
  where
    kept : (t : Bool) (x : ℕ) → x ≤ 1 → min x (if t then 0 else 1) ≡ (if t then 0 else x)
    kept true x h = omega arith
    kept false x h = omega arith
