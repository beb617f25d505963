-- ===== src/Files/Relay/Left.antt =====
-- What the `FileRouter` of files.rs does when a machine disconnects.
use geser_desk.Prelude.{
  append_assoc, append_nil, ℕ, suc, ◌==◌, ◌≤◌, ◌<◌, Bool, true, false, not, String, List, [], ◌∷◌,
  ◌++◌, Option, none, some, map, arith, ◌≡◌, ◌≢◌, refl, sym, subst, ap, ◌∙◌, inl, inr, Bool-cases,
  Option-cases, All, keep, length, ◌is◌, is_iff,
}
use geser_desk.Message.{FileReadResult}
use geser_desk.Hub.{Hub}
use geser_desk.Files.{FileManifest}
use geser_desk.Files.Relay.{
  Owner, server, client, Waiting, to_client, to_local, Pending, FileRouter, new, current_owner,
  deliver, take_out, answer_with, answer_all, not_found, stale, without_owner, on_disconnected,
}
use geser_desk.Files.Relay.Steps.{Step, steps}
use geser_desk.Files.Relay.Waits.{Below}
use geser_desk.Files.Relay.Once.{steps-Keeps}

abbrev to : String → ℕ × Pending → Bool
to name e = e.1.sent_to is name

abbrev refused : ℕ × Pending → Waiting × FileReadResult
refused e = (e.1.waiting, not_found)

deliver_lem :
    (r : FileRouter) (w : Waiting) (result : FileReadResult)
    → ((deliver r w result).pending ≡ r.pending)
      × ((deliver r w result).answers ≡ r.answers ++ ((w, result) ∷ []))
      × ((deliver r w result).current ≡ r.current)
unfolding deliver
deliver_lem r (to_client name req) result = (refl, refl, refl)
deliver_lem r (to_local n) result = (refl, refl, refl)

take_out_front :
    (req : ℕ) (p : Pending) (front rest : List (ℕ × Pending))
    → All (λ e. suc req ≤ e.0) front
    → take_out req (front ++ ((req, p) ∷ rest)) ≡ (some p, front ++ rest)
unfolding take_out
take_out_front req p [] rest later = let same : (req == req) ≡ true = ground arith in rw same refl
take_out_front req p ((at, q) ∷ front) rest later =
    let other : (at == req) ≡ false = ground (arith, later.0) in
    let found = take_out_front req p front rest later.1 in rw (take_out, other) (rw found refl)

All-later : (a b : ℕ) (m : List (ℕ × Pending)) → a ≤ b → All (λ e. b ≤ e.0) m → All (λ e. a ≤ e.0) m
All-later a b [] le later = tt
All-later a b (e ∷ m) le later = (omega (arith, le, later.0), All-later a b m le later.1)

All-end :
    (n : ℕ) (m : List (ℕ × Pending)) (e : ℕ × Pending)
    → All (λ e. n ≤ e.0) m
    → n ≤ e.0
    → All (λ e. n ≤ e.0) (m ++ (e ∷ []))
All-end n [] e later le = (le, tt)
All-end n (x ∷ m) e later le = (later.0, All-end n m e later.1 le)

-- What is left of the map, and what is answered.
record Refused (name : String) (front m : List (ℕ × Pending)) (r r' : FileRouter) : Type 0 where
  pub waits : r'.pending ≡ front ++ keep (λ e. not (to name e)) m
  pub answered : r'.answers ≡ r.answers ++ map refused (keep (to name) m)
  pub owner_same : r'.current ≡ r.current

-- One question answered, from the middle of the map.
answer_with_front :
    (r : FileRouter) (req : ℕ) (p : Pending) (front rest : List (ℕ × Pending))
    → r.pending ≡ front ++ ((req, p) ∷ rest)
    → All (λ e. suc req ≤ e.0) front
    → answer_with r req (λ p. not_found)
      ≡ deliver (record r { pending = front ++ rest }) p.waiting not_found
unfolding answer_with
answer_with_front r req p front rest is_all later =
    let taken = ap (take_out req) is_all ∙ take_out_front req p front rest later in
    let first : (take_out req r.pending).0 ≡ some p = ap (λ x. x.0) taken in
    let others : (take_out req r.pending).1 ≡ front ++ rest = ap (λ x. x.1) taken in
    rw (answer_with, first) (rw others refl)

keep_yes :
    (t : ℕ × Pending → Bool) (e : ℕ × Pending) (m : List (ℕ × Pending))
    → t e ≡ true
    → keep t (e ∷ m) ≡ e ∷ keep t m
unfolding keep
keep_yes t e m holds = rw holds refl

keep_no :
    (t : ℕ × Pending → Bool) (e : ℕ × Pending) (m : List (ℕ × Pending))
    → t e ≡ false
    → keep t (e ∷ m) ≡ keep t m
unfolding keep
keep_no t e m absent = rw absent refl

answer_all-Refused :
    (n : ℕ) (r : FileRouter) (name : String) (front m : List (ℕ × Pending))
    → r.pending ≡ front ++ m
    → All (λ e. n ≤ e.0) front
    → Below n m
    → Refused name front m r (answer_all r (stale name m))
unfolding answer_all stale keep
answer_all-Refused n r name front [] is_all later below = record {
  waits = is_all;
  answered = sym (append_nil r.answers);
  owner_same = refl;
}
answer_all-Refused n r name front ((req, p) ∷ rest) is_all later below =
    elim (Bool-cases (p.sent_to is name)) [
      | inl t ↦
          let cut : FileRouter = record r { pending = front ++ rest } in
          let (pending_same, more, owner_same) = deliver_lem cut p.waiting not_found in
          let one =
            answer_all-Refused req (deliver cut p.waiting not_found) name front rest pending_same
              (All-later req n front (omega (arith, below.0)) later) below.1 in
          let stop : answer_with r req (λ p. not_found) ≡ deliver cut p.waiting not_found =
            answer_with_front r req p front rest is_all
              (All-later (suc req) n front (omega (arith, below.0)) later) in
          let drops : not (to name (req, p)) ≡ false = ground (arith, t) in
          let all_stale : stale name ((req, p) ∷ rest) ≡ req ∷ stale name rest =
            ap (map (λ e. e.0)) (keep_yes (to name) (req, p) rest t) in
          let same : answer_all r (stale name ((req, p) ∷ rest))
              ≡ answer_all (deliver cut p.waiting not_found) (stale name rest) =
            ap (answer_all r) all_stale ∙ ap (λ x. answer_all x (stale name rest)) stop in
          subst (Refused name front ((req, p) ∷ rest) r) (sym same) record {
            waits =
                one.waits
                ∙ ap (λ l. front ++ l) (sym (keep_no (λ e. not (to name e)) (req, p) rest drops));
            answered =
                one.answered
                ∙ ap (λ l. l ++ map refused (keep (to name) rest)) more
                ∙ append_assoc r.answers ((p.waiting, not_found) ∷ [])
                    (map refused (keep (to name) rest))
                ∙ ap (λ l. r.answers ++ map refused l) (sym (keep_yes (to name) (req, p) rest t));
            owner_same = one.owner_same ∙ owner_same;
          }
      | inr f ↦
          let more = append_assoc front ((req, p) ∷ []) rest in
          let one : Refused name (front ++ ((req, p) ∷ [])) rest r
              (answer_all r (stale name rest)) =
            answer_all-Refused req r name (front ++ ((req, p) ∷ [])) rest (is_all ∙ sym more)
              (All-end req front (req, p) (All-later req n front (omega (arith, below.0)) later)
                (omega arith))
              below.1 in
          let keeps : not (to name (req, p)) ≡ true = ground (arith, f) in
          let all_stale : stale name ((req, p) ∷ rest) ≡ stale name rest =
            ap (map (λ e. e.0)) (keep_no (to name) (req, p) rest f) in
          subst (λ l. Refused name front ((req, p) ∷ rest) r (answer_all r l)) (sym all_stale)
            record {
              waits =
                  one.waits
                  ∙ append_assoc front ((req, p) ∷ []) (keep (λ e. not (to name e)) rest)
                  ∙ ap (λ l. front ++ l)
                      (sym (keep_yes (λ e. not (to name e)) (req, p) rest keeps));
              answered =
                  one.answered
                  ∙ ap (λ l. r.answers ++ map refused l) (sym (keep_no (to name) (req, p) rest f));
              owner_same = one.owner_same;
            }
    ]

abbrev owner_in : Option (Owner × ℕ × FileManifest) → Option Owner
owner_in none = none
owner_in (some c) = some (c.0)

current_owner_lem : (r : FileRouter) → current_owner r ≡ owner_in r.current
unfolding current_owner
current_owner_lem r = elim (Option-cases r.current) [
  | inl absent ↦ rw (current_owner, absent) refl
  | inr (c, found) ↦ rw (current_owner, found) refl
]

without_owner_lem :
    (name : String) (c : Option (Owner × ℕ × FileManifest))
    → owner_in (without_owner name c) ≢ some (client name)
without_owner_lem name none e = cc
without_owner_lem name (some (server, seq, m)) e = cc
without_owner_lem name (some (client n, seq, m)) e = elim (Bool-cases (n is name)) [
  | inl t ↦ cc (rw t at e)
  | inr f ↦ ground (arith, is_iff n name, f, e)
]

-- When a machine disconnects, every question that was sent to it is answered with `NotFound`, in one go; the
-- questions sent to other machines wait on, and the machine owns no files any more. This is from any state that
-- steps from an empty router lead to, fewer than the numbers that a request can have.
pub on_disconnected-steps :
    (hub : Hub) (ss : List Step) (name : String)
    → length ss < 18446744073709551615
    → let r = steps (new hub) ss in
      let r' = on_disconnected r name in
      (r'.answers
        ≡ r.answers
          ++ map (λ e. (e.1.waiting, not_found)) (keep (λ e. e.1.sent_to is name) r.pending))
      × (r'.pending ≡ keep (λ e. not (e.1.sent_to is name)) r.pending)
      × (current_owner r' ≢ some (client name))
unfolding on_disconnected current_owner new
on_disconnected-steps hub ss name few =
    let r = steps (new hub) ss in
    let gone : FileRouter = record r { current = without_owner name r.current } in
    let fits = (steps-Keeps (new hub) ss (tt, omega (arith, few))).0 in
    let left = answer_all-Refused gone.next_req gone name [] gone.pending refl tt fits.0 in
    (
      left.answered,
      left.waits,
      λ e. without_owner_lem name r.current (
          ap owner_in (sym left.owner_same) ∙ sym (current_owner_lem (on_disconnected r name)) ∙ e),
    )
