-- ===== src/Domain/Privacy/Laws.antt =====
-- Levels and their numbers.
use hidden_steps.Prelude.{arith, err, ok, true, ℕ, ◌<◌, ◌↔◌, ◌≡◌, ◌≤◌}
use hidden_steps.Domain.Privacy.{PrivacyLevel, as_u8, from_u8, level_eq, out_of_range}

pub from_u8-as_u8 : (level : PrivacyLevel) → from_u8 (as_u8 level) ≡ ok level
unfolding from_u8
from_u8-as_u8 level = ground arith

pub from_u8_sound :
    (value : ℕ) (level : PrivacyLevel) → from_u8 value ≡ ok level → as_u8 level ≡ value
unfolding from_u8
from_u8_sound value level h = ground arith

pub from_u8_out_of_range : (value : ℕ) → 4 < value → from_u8 value ≡ err (out_of_range value)
unfolding from_u8
from_u8_out_of_range value h = ground arith

pub level_eq_sound : (a b : PrivacyLevel) → level_eq a b ≡ true → a ≡ b
unfolding level_eq
level_eq_sound a b h = ground arith

pub as_u8-le_four : (level : PrivacyLevel) → as_u8 level ≤ 4
unfolding as_u8
as_u8-le_four level = ground arith

-- A number is parsed as a level exactly when it is that level's own number.
from_u8_iff :
    (value : ℕ) (level : PrivacyLevel) → (from_u8 value ≡ ok level) ↔ (as_u8 level ≡ value)
from_u8_iff value level = (from_u8_sound value level, λ e. rw (← e) (from_u8-as_u8 level))
