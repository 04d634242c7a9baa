-- ===== src/Tests/Clock.antt =====
-- src/decode.rs, on frames captured from the scoreboard.
use scoreboard_ctrl.Base.{
  ℕ, ◌≡◌, refl, some, none, List, [], ◌∷◌, done, load, store, take, replicate, arith,
}
use scoreboard_ctrl.Decode.{parse_clock_packet, write_hex}
use scoreboard_ctrl.Decode.Hex.{write_hex_lem, written, hex_text, fitting}

abbrev countdown : List ℕ
countdown = 0x60 ∷ 0x7a ∷ 0x00 ∷ 0x02 ∷ 0x06 ∷ 0x00 ∷ []

countdown_parses : parse_clock_packet countdown ≡ some (2, 6)
unfolding parse_clock_packet
countdown_parses = refl

too_late : parse_clock_packet (0x60 ∷ 0 ∷ 0 ∷ 100 ∷ 0 ∷ 0 ∷ []) ≡ none
unfolding parse_clock_packet
too_late = refl

countdown_text :
    write_hex (0x60 ∷ 0x7a ∷ []) (replicate 6 0)
    ≡ done (b'6' ∷ b'0' ∷ b' ' ∷ b'7' ∷ b'a' ∷ 0 ∷ [], 5)
unfolding write_hex load store
countdown_text = refl

write_hex_lem_example :
    write_hex countdown (replicate 8 0)
    ≡ done (written (hex_text (take (fitting countdown (replicate 8 0)) countdown)) (replicate 8 0))
write_hex_lem_example = write_hex_lem countdown (replicate 8 0) (omega arith)
