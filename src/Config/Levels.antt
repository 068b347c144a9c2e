-- ===== src/Config/Levels.antt =====
-- The order of the levels, and the defaults.
use pg_tool_box.Common.{true, ◌≡◌, ◌≢◌, ◌⊎◌, ◌↔◌, arith, text_beq_iff, List, [], ◌∷◌, map, refl}
use pg_tool_box.Common.Int.{ℤ, ℤ_eq, pos, negsuc}
use pg_tool_box.Config.{
  Level, level_none, level_view, level_poweruser, level_dba, is_valid_level, rank, Config,
  set_defaults, default_route, RouteConfig,
}

-- The three levels that an operator may configure.
abbrev pub IsConfigurable : Level → Type 0
IsConfigurable l = (l ≡ level_view) ⊎ (l ≡ level_poweruser) ⊎ (l ≡ level_dba)

pub is_valid_level_iff : (l : Level) → (is_valid_level l ≡ true) ↔ IsConfigurable l
unfolding is_valid_level
is_valid_level_iff l = ground (
  arith,
  text_beq_iff l level_view,
  text_beq_iff l level_poweruser,
  text_beq_iff l level_dba,
  text_beq_iff l level_none,
)

-- The places in the order none < view < poweruser < dba; any other text lies below them all.
pub data Standing : Type 0 where
  unknown nobody viewer power_user dba : Standing

abbrev pub place : Standing → ℤ
place unknown = negsuc 0
place nobody = pos 0
place viewer = pos 1
place power_user = pos 2
place dba = pos 3

abbrev pub Stands : Level → Standing → Type 0
Stands l unknown = (l ≢ level_none) × (¬ IsConfigurable l)
Stands l nobody = l ≡ level_none
Stands l viewer = l ≡ level_view
Stands l power_user = l ≡ level_poweruser
Stands l dba = l ≡ level_dba

-- `rank` gives a text the number of a place exactly when the text stands there.
pub rank-eq_iff : (l : Level) (s : Standing) → (rank l ≡ place s) ↔ Stands l s
unfolding rank
rank-eq_iff l unknown = ground (
  arith,
  text_beq_iff l level_view,
  text_beq_iff l level_poweruser,
  text_beq_iff l level_dba,
  text_beq_iff l level_none,
)
rank-eq_iff l _ = ground (
  arith,
  text_beq_iff l level_view,
  text_beq_iff l level_poweruser,
  text_beq_iff l level_dba,
  text_beq_iff l level_none,
)

default_route_idem :
    (rs : List RouteConfig) → map default_route (map default_route rs) ≡ map default_route rs
default_route_idem [] = refl
default_route_idem (r ∷ rs) = ground (arith, default_route_idem rs)

-- Defaulting a configuration a second time changes nothing.
pub set_defaults_idem : (c : Config) → set_defaults (set_defaults c) ≡ set_defaults c
unfolding set_defaults
set_defaults_idem c = ground (arith, default_route_idem c.routes)
