-- ===== src/Router/Combinations.antt =====
-- Key combinations of router.rs: a press that fires a rule, and the release that ends it.
use geser_desk.Prelude.{
  ℕ, String, List, [], ◌∷◌, Option, none, some, ◌==◌, arith, ◌≡◌, ◌≢◌, refl, All, if◌then◌else◌, ap,
  subst, ◌∙◌,
}
use geser_desk.Geometry.{Point}
use geser_desk.Input.{KeyEvent, KeyAction, down, up, repeats}
use geser_desk.Keys.{Rule}
use geser_desk.Router.{Core, State, send}
use geser_desk.Router.Moves.{forward}
use geser_desk.Router.KeyInput.{
  fired_action, fired_insert, fired_remove, as_action, rule_for, held_key, fresh_key, key_in,
  on_key,
}

-- Key after key.
abbrev pub keys_in : Core → List KeyEvent → Core
keys_in c [] = c
keys_in c (k ∷ ks) = keys_in (on_key c k).0 ks

fired_action-insert :
    (hid action read : ℕ) (m : List (ℕ × ℕ))
    → fired_action read (fired_insert hid action m)
      ≡ (if hid == read then some action else fired_action read m)
unfolding fired_action fired_insert
fired_action-insert hid action read [] = refl
fired_action-insert hid action read ((h, a) ∷ m) =
    ground (arith, fired_action-insert hid action read m)

fired_action-remove :
    (hid read : ℕ) (m : List (ℕ × ℕ))
    → fired_action read (fired_remove hid m) ≡ (if hid == read then none else fired_action read m)
unfolding fired_action fired_remove
fired_action-remove hid read [] = ground arith
fired_action-remove hid read ((h, a) ∷ m) = ground (arith, fired_action-remove hid read m)

-- A key leaves who has the input, and what the other keys fired, as it was.
abbrev Leaves : ℕ → Core → Core → Type 0
Leaves hid c d =
    (d.state ≡ c.state)
    × ((read : ℕ) → read ≢ hid → fired_action read d.fired ≡ fired_action read c.fired)

held_key-Leaves :
    (c : Core) (k : KeyEvent) (action : ℕ) (a : KeyAction)
    → Leaves k.hid c (held_key c k action a).0
unfolding held_key
held_key-Leaves c k action up =
    (refl, λ read other. ground (arith, fired_action-remove k.hid read c.fired, other))
held_key-Leaves c k action down = (refl, λ read other. refl)
held_key-Leaves c k action (repeats n) = (refl, λ read other. refl)

fresh_key-Leaves : (c : Core) (k : KeyEvent) (o : Option Rule) → Leaves k.hid c (fresh_key c k o).0
unfolding fresh_key
fresh_key-Leaves c k none = (refl, λ read other. refl)
fresh_key-Leaves c k (some r) =
    (refl, λ read other. ground (arith, fired_action-insert k.hid r.action read c.fired, other))

key_in-Leaves : (c : Core) (k : KeyEvent) (o : Option ℕ) → Leaves k.hid c (key_in c k o).0
unfolding key_in
key_in-Leaves c k none = fresh_key-Leaves c k (rule_for c k k.action)
key_in-Leaves c k (some action) = held_key-Leaves c k action k.action

keys_in-Leaves :
    (c : Core) (hid : ℕ) (ks : List KeyEvent)
    → All (λ e. hid ≢ e.hid) ks
    → ((keys_in c ks).state ≡ c.state)
      × (fired_action hid (keys_in c ks).fired ≡ fired_action hid c.fired)
unfolding on_key
keys_in-Leaves c hid [] a = (refl, refl)
keys_in-Leaves c hid (k ∷ ks) a =
    let (st, kept) = key_in-Leaves c k (fired_action k.hid c.fired) in
    let (st', kept') = keys_in-Leaves (on_key c k).0 hid ks a.1 in (st' ∙ st, kept' ∙ kept hid a.0)

on_key-press :
    (c : Core) (k : KeyEvent) (r : Rule)
    → fired_action k.hid c.fired ≡ none
    → rule_for c k k.action ≡ some r
    → on_key c k ≡ fresh_key c k (some r)
unfolding on_key key_in
on_key-press c k r fresh fires = rw (fresh, key_in, fires) refl

on_key-held :
    (d : Core) (k : KeyEvent) (action : ℕ)
    → fired_action k.hid d.fired ≡ some action
    → k.action ≡ up
    → on_key d k ≡ held_key d k action up
unfolding on_key key_in
on_key-held d k action fired is_up = rw (fired, key_in, is_up) refl

-- The releasing event, while `screen` has the input.
held_key-release :
    (d : Core) (k : KeyEvent) (action : ℕ) (screen : String) (at : Point)
    → d.state ≡ State.remote screen at
    → ((held_key d k action up).1 ≡ send screen (as_action action up) ∷ [])
      × (fired_action k.hid (held_key d k action up).0.fired ≡ none)
      × ((held_key d k action up).0.state ≡ State.remote screen at)
unfolding held_key forward
held_key-release d k action screen at s =
    (rw s refl, ground (arith, fired_action-remove k.hid k.hid d.fired), s)

fresh_key-fires :
    (c : Core) (k : KeyEvent) (r : Rule)
    → ((fresh_key c k (some r)).0.state ≡ c.state)
      × (fired_action k.hid (fresh_key c k (some r)).0.fired ≡ some r.action)
unfolding fresh_key
fresh_key-fires c k r = (refl, ground (arith, fired_action-insert k.hid r.action k.hid c.fired))

-- While the client `screen` has the input, a key that is not down for a rule is pressed and completes the
-- combination of a rule. After it any keys but this one follow, and then its release. What that release sends to
-- the client is the release of the rule's action key, and nothing else; the key is then down for no rule, and the
-- client still has the input.
pub on_key-release :
    (c : Core) (screen : String) (at : Point) (k released : KeyEvent) (ks : List KeyEvent)
    (r : Rule)
    → c.state ≡ State.remote screen at
    → fired_action k.hid c.fired ≡ none
    → rule_for c k k.action ≡ some r
    → All (λ e. k.hid ≢ e.hid) ks
    → released.hid ≡ k.hid
    → released.action ≡ up
    → let d = keys_in (on_key c k).0 ks in
      ((on_key d released).1 ≡ send screen (as_action r.action up) ∷ [])
      × (fired_action k.hid (on_key d released).0.fired ≡ none)
      × ((on_key d released).0.state ≡ State.remote screen at)
on_key-release c screen at k released ks r s fresh fires others same is_up =
    let d = keys_in (on_key c k).0 ks in
    let (st, kept) = keys_in-Leaves (on_key c k).0 k.hid ks others in
    let (st', fired) = fresh_key-fires c k r in
    let press = ap (λ p. p.0) (on_key-press c k r fresh fires) in
    let now : d.state ≡ State.remote screen at = st ∙ ap (λ e. e.state) press ∙ st' ∙ s in
    let held : fired_action released.hid d.fired ≡ some r.action =
      ap (λ h. fired_action h d.fired) same
      ∙ kept
      ∙ ap (λ e. fired_action k.hid e.fired) press
      ∙ fired in
    let (sent, off, still) = held_key-release d released r.action screen at now in
    rw (on_key-held d released r.action held is_up) (
      sent,
      subst (λ h. fired_action h (held_key d released r.action up).0.fired ≡ none) same off,
      still,
    )
