-- ===== src/Tb/Logger/Level.antt =====
-- The three ways to set the level.
use Prim.Native.String.{String}
use text.Mathlib.Text.{◌==◌ as str_eq}
use text.Mathlib.TextEquality.{eq_iff}
use len5_core.Common.{◌≡◌, refl, ap, ◌≢◌, inl, inr, false, Bool-cases}
use len5_core.Common.Int.{pos}
use len5_core.Tb.Logger.{
  LogLvl, log_none, log_low, log_medium, log_high, log_full, log_debug, rank, level_of_name,
  level_of_number, set_log_lvl, set_log_lvl_name, set_log_lvl_number, TbLogger,
}

-- The enumerator as text.
abbrev pub name : LogLvl → String
name log_none = "LOG_NONE"
name log_low = "LOG_LOW"
name log_medium = "LOG_MEDIUM"
name log_high = "LOG_HIGH"
name log_full = "LOG_FULL"
name log_debug = "LOG_DEBUG"

level_of_name-name : (v : LogLvl) → level_of_name (name v) ≡ v
unfolding level_of_name
level_of_name-name log_none = refl
level_of_name-name log_low = refl
level_of_name-name log_medium = refl
level_of_name-name log_high = refl
level_of_name-name log_full = refl
level_of_name-name log_debug = refl

level_of_number-rank : (v : LogLvl) → level_of_number (pos (rank v)) ≡ v
unfolding level_of_number
level_of_number-rank log_none = refl
level_of_number-rank log_low = refl
level_of_number-rank log_medium = refl
level_of_number-rank log_high = refl
level_of_number-rank log_full = refl
level_of_number-rank log_debug = refl

refused : (s t : String) → s ≢ t → str_eq s t ≡ false
refused s t h = elim (Bool-cases (str_eq s t)) [ inl e ↦ absurd (h ((eq_iff s t).0 e)) | inr e ↦ e ]

level_of_name_else : (s : String) → ((v : LogLvl) → s ≢ name v) → level_of_name s ≡ log_medium
unfolding level_of_name
level_of_name_else s h =
    rw
      (
        refused s "LOG_NONE" (h log_none),
        refused s "LOG_LOW" (h log_low),
        refused s "LOG_HIGH" (h log_high),
        refused s "LOG_FULL" (h log_full),
        refused s "LOG_DEBUG" (h log_debug),
      )
      refl

-- The name of a level and its number both set that level, and a text that is the name of none of the
-- levels, such as a decimal number, sets LOG_MEDIUM.
pub set_log_lvl_name-set_log_lvl :
    (l : TbLogger) (v : LogLvl) (s : String)
    → ((w : LogLvl) → s ≢ name w)
    → (set_log_lvl_name (name v) l ≡ set_log_lvl v l)
      × (set_log_lvl_number (pos (rank v)) l ≡ set_log_lvl v l)
      × (set_log_lvl_name s l ≡ set_log_lvl log_medium l)
unfolding set_log_lvl_name set_log_lvl_number set_log_lvl
set_log_lvl_name-set_log_lvl l v s h = (
  ap (λ (x : LogLvl). record l { log_lvl = x }) (level_of_name-name v),
  ap (λ (x : LogLvl). record l { log_lvl = x }) (level_of_number-rank v),
  ap (λ (x : LogLvl). record l { log_lvl = x }) (level_of_name_else s h),
)
