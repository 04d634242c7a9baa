-- ===== src/Boot/Logger.antt =====
-- src/defmt_log.rs: the logger behind the `log` crate, which calls it for a record whose level is at most
-- the maximum that `init` sets. The macros of defmt are constructors with the text.
use scoreboard_ctrl.Base.{ℕ, Bool, true, Option, none, some, List, if◌then◌else◌}

pub data Level : Type 0 where
  error warn info debug trace : Level

pub data Defmt : Type 0 where
  error warn info debug trace : List ℕ → Defmt

unfoldable pub enabled : Level → Bool
enabled level = true

unfoldable pub by_level : Level → List ℕ → Defmt
by_level Level.error args = Defmt.error args
by_level Level.warn args = Defmt.warn args
by_level Level.info args = Defmt.info args
by_level Level.debug args = Defmt.debug args
by_level Level.trace args = Defmt.trace args

unfoldable pub log : Level → List ℕ → Option Defmt
unfolding by_level
log level args = if enabled level then some (by_level level args) else none

-- `set_max_level_racy`
abbrev pub max_level : Level
max_level = Level.info
