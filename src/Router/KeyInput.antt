-- ===== src/Router/KeyInput.antt =====
-- router.rs: `on_key`, the keys and the rules that turn a combination into an action.
use geser_desk.Prelude.{
  ℕ, List, [], ◌∷◌, ◌++◌, Option, none, some, ◌==◌, if◌then◌else◌, find, is_some,
}
use geser_desk.Input.{
  ModMask, KeyAction, KeyEvent, control, alt, shift, super, alt_gr, empty_mods, mods_contains, down,
  up, repeats,
}
use geser_desk.Keys.{Rule, matches}
use geser_desk.Message.{ServerMsg}
use geser_desk.Router.{Core, Action, active_remote}
use geser_desk.Router.Moves.{forward}

-- MODIFIER_KEYS: the keys of each modifier, left and right.
abbrev pub modifier_keys : List (ModMask × List ℕ)
modifier_keys =
    (control, 0xE0 ∷ 0xE4 ∷ [])
    ∷ (alt, 0xE2 ∷ 0xE6 ∷ [])
    ∷ (shift, 0xE1 ∷ 0xE5 ∷ [])
    ∷ (super, 0xE3 ∷ 0xE7 ∷ [])
    ∷ (alt_gr, 0xE6 ∷ [])
    ∷ []

-- `HashMap<u16, u16>`.
unfoldable pub fired_action : ℕ → List (ℕ × ℕ) → Option ℕ
fired_action hid [] = none
fired_action hid ((h, a) ∷ m) = if h == hid then some a else fired_action hid m

unfoldable pub fired_insert : ℕ → ℕ → List (ℕ × ℕ) → List (ℕ × ℕ)
fired_insert hid action [] = (hid, action) ∷ []
fired_insert hid action ((h, a) ∷ m) =
    if h == hid then (hid, action) ∷ m else (h, a) ∷ fired_insert hid action m

unfoldable pub fired_remove : ℕ → List (ℕ × ℕ) → List (ℕ × ℕ)
fired_remove hid [] = []
fired_remove hid ((h, a) ∷ m) =
    let rest = fired_remove hid m in if h == hid then rest else (h, a) ∷ rest

-- The closure `as_action`.
abbrev pub as_action : ℕ → KeyAction → ServerMsg
as_action hid action =
    ServerMsg.key (record { hid = hid; ch = none; mods = empty_mods; action = action })

-- The releases of the keys of one modifier, and of all the modifiers of a rule.
unfoldable pub release_keys : Core → List ℕ → List Action
release_keys c [] = []
release_keys c (hid ∷ hids) = forward c (as_action hid up) ++ release_keys c hids

unfoldable pub release_mods : Core → ModMask → List (ModMask × List ℕ) → List Action
unfolding release_keys
release_mods c mods [] = []
release_mods c mods ((bit, hids) ∷ rest) =
    if mods_contains mods bit
    then release_keys c hids ++ release_mods c mods rest
    else release_mods c mods rest

-- A rule fires only on a press, and only while a client has the input.
unfoldable pub rule_for : Core → KeyEvent → KeyAction → Option Rule
rule_for c k down =
    if is_some (active_remote c) then find (λ r. matches r k.hid k.mods) c.key_rules else none
rule_for c k up = none
rule_for c k (repeats n) = none

-- A key whose press fired a rule: its release ends that.
unfoldable pub held_key : Core → KeyEvent → ℕ → KeyAction → Core × List Action
held_key c k action up =
    (record c { fired = fired_remove k.hid c.fired }, forward c (as_action action up))
held_key c k action down = (c, forward c (as_action action down))
held_key c k action (repeats n) = (c, forward c (as_action action (repeats n)))

unfoldable pub fresh_key : Core → KeyEvent → Option Rule → Core × List Action
unfolding release_mods
fresh_key c k none = (c, forward c (ServerMsg.key k))
fresh_key c k (some rule) = (
  record c { fired = fired_insert k.hid rule.action c.fired },
  release_mods c rule.mods modifier_keys ++ forward c (as_action rule.action down),
)

unfoldable pub key_in : Core → KeyEvent → Option ℕ → Core × List Action
unfolding held_key fresh_key rule_for
key_in c k (some action) = held_key c k action k.action
key_in c k none = fresh_key c k (rule_for c k k.action)

unfoldable pub on_key : Core → KeyEvent → Core × List Action
unfolding key_in
on_key c k = key_in c k (fired_action k.hid c.fired)
