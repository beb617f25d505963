-- ===== src/Router/Protocol/Input.antt =====
-- The input that `handle` of router.rs forwards reaches the client that has the cursor, and no
-- other.
use geser_desk.Prelude.{
  ℕ, List, [], ◌∷◌, ◌++◌, Option, none, some, arith, ◌≡◌, refl, inl, inr, is_refl, Bool-cases, All,
}
use geser_desk.Input.{ModMask, KeyEvent, KeyAction, MouseEvent, down, up, repeats, mods_contains}
use geser_desk.Keys.{Rule}
use geser_desk.Message.{ServerMsg}
use geser_desk.Router.{Core, State, Action}
use geser_desk.Router.Moves.{forward, to_holder}
use geser_desk.Router.KeyInput.{
  on_key, key_in, held_key, fresh_key, release_keys, release_mods, modifier_keys, as_action,
  fired_action, rule_for,
}
use geser_desk.Router.Session.{Session, observe, replay, session_of, session_of_state, Follows}

-- Actions that the session allows and that leave it as it is.
abbrev Quiet : Session → List Action → Type 0
Quiet s acts = All (λ a. observe s a ≡ some s) acts

Quiet-replay : (s : Session) (acts : List Action) → Quiet s acts → replay s acts ≡ some s
Quiet-replay s [] q = refl
Quiet-replay s (a ∷ acts) q = rw (q.0, replay) (Quiet-replay s acts q.1)

Quiet-append : (s : Session) (xs ys : List Action) → Quiet s xs → Quiet s ys → Quiet s (xs ++ ys)
Quiet-append s [] ys q r = r
Quiet-append s (x ∷ xs) ys q r = (q.0, Quiet-append s xs ys q.1 r)

to_holder-key :
    (st : State) (k : KeyEvent) → Quiet (session_of_state st) (to_holder st (ServerMsg.key k))
to_holder-key State.local k = tt
to_holder-key (State.remote screen at) k = (rw (is_refl screen), tt)

pub to_holder-mouse :
    (st : State) (m : MouseEvent)
    → replay (session_of_state st) (to_holder st (ServerMsg.mouse m)) ≡ some (session_of_state st)
to_holder-mouse State.local m = refl
to_holder-mouse (State.remote screen at) m = ground (arith, is_refl screen)

forward-key : (c : Core) (k : KeyEvent) → Quiet (session_of c) (forward c (ServerMsg.key k))
unfolding forward
forward-key c k = to_holder-key c.state k

release_keys-Quiet : (c : Core) (hids : List ℕ) → Quiet (session_of c) (release_keys c hids)
unfolding release_keys
release_keys-Quiet c [] = tt
release_keys-Quiet c (hid ∷ hids) =
    Quiet-append (session_of c) (forward c (as_action hid up)) (release_keys c hids)
      (forward-key c _) (release_keys-Quiet c hids)

release_mods-Quiet :
    (c : Core) (mods : ModMask) (table : List (ModMask × List ℕ))
    → Quiet (session_of c) (release_mods c mods table)
unfolding release_mods
release_mods-Quiet c mods [] = tt
release_mods-Quiet c mods ((bit, hids) ∷ rest) = elim (Bool-cases (mods_contains mods bit)) [
  | inl t ↦ rw t (
      Quiet-append (session_of c) (release_keys c hids) (release_mods c mods rest)
        (release_keys-Quiet c hids) (release_mods-Quiet c mods rest))
  | inr f ↦ rw f (release_mods-Quiet c mods rest)
]

fresh_key-Follows :
    (c : Core) (k : KeyEvent) (r : Option Rule) → Follows (session_of c) (fresh_key c k r)
unfolding fresh_key
fresh_key-Follows c k none = Quiet-replay (session_of c) _ (forward-key c k)
fresh_key-Follows c k (some rule) = Quiet-replay (session_of c) _ (
    Quiet-append (session_of c) (release_mods c rule.mods modifier_keys)
      (forward c (as_action rule.action down)) (release_mods-Quiet c rule.mods modifier_keys)
      (forward-key c _))

held_key-Follows :
    (c : Core) (k : KeyEvent) (action : ℕ) (a : KeyAction)
    → Follows (session_of c) (held_key c k action a)
unfolding held_key
held_key-Follows c k action down = Quiet-replay (session_of c) _ (forward-key c _)
held_key-Follows c k action up = Quiet-replay (session_of c) _ (forward-key c _)
held_key-Follows c k action (repeats n) = Quiet-replay (session_of c) _ (forward-key c _)

key_in-Follows : (c : Core) (k : KeyEvent) (o : Option ℕ) → Follows (session_of c) (key_in c k o)
unfolding key_in
key_in-Follows c k none = fresh_key-Follows c k (rule_for c k k.action)
key_in-Follows c k (some action) = held_key-Follows c k action k.action

pub on_key-Follows : (c : Core) (k : KeyEvent) → Follows (session_of c) (on_key c k)
unfolding on_key
on_key-Follows c k = key_in-Follows c k (fired_action k.hid c.fired)
