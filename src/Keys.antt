-- ===== src/Keys.antt =====
-- crates/geserdesk-proto/src/keys.rs, the rules: a key combination that stands for an action.
use geser_desk.Prelude.{ℕ, Bool, ◌&&◌, ◌==◌}
use geser_desk.Input.{ModMask, shift, control, alt, super, alt_gr, mods_or, mods_and, mods_eq}

pub record Rule : Type 0 where
  pub mods : ModMask
  pub hid : ℕ
  pub action : ℕ

-- The lock keys do not count.
unfoldable pub rule_mods : ModMask → ModMask
unfolding mods_or mods_and
rule_mods mods =
    mods_and mods (mods_or (mods_or (mods_or (mods_or shift control) alt) super) alt_gr)

-- The modifiers held are exactly those of the rule.
unfoldable pub matches : Rule → ℕ → ModMask → Bool
unfolding rule_mods
matches r hid mods = r.hid == hid && mods_eq (rule_mods mods) r.mods

-- What a client does for an action (`act` is another one).
pub data Perform : Type 0 where
  ignore : Perform
  keysym virtual_key act : ℕ → Perform
