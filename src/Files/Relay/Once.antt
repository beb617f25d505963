-- ===== src/Files/Relay/Once.antt =====
-- Every step of the `FileRouter` of files.rs keeps count of the questions.
use geser_desk.Prelude.{
  ℕ, zero, suc, ◌+◌, ◌<◌, Bool, List, [], ◌∷◌, none, some, map, arith, ◌≡◌, refl, ◌⊎◌, inl, inr,
  Option-cases, length, if◌then◌else◌, ◌is◌,
}
use geser_desk.Hub.{Hub}
use geser_desk.Files.Owner as Served
use geser_desk.Files.Owner.{Disk}
use geser_desk.Files.Relay.{
  Owner, server, client, Waiting, to_client, to_local, Reading, FileRouter, new, announce,
  current_owner, not_found, stale, without_owner, on_disconnected, route, pick, read_ends,
  request_for_client, request_local, reply_from_client,
}
use geser_desk.Files.Relay.Steps.{
  Step, step, steps, asks_in, asks, announced, copied, left, asked_by_client, asked_here, read_done,
  replied, hub_becomes,
}
use geser_desk.Files.Relay.Waits.{
  count, answered, held, count_one, count-append, Fits, Keeps, held-deliver, deliver-Fits,
  answer_with-Keeps, answer_all-Keeps, ask-Keeps,
}

Fits-less : (k : ℕ) (r : FileRouter) → Fits (suc k) r → Fits k r
Fits-less k r fits = (fits.0, omega (arith, fits.1))

-- The question as it goes out, by who owns the files.
owned-Keeps :
    (k : ℕ) (r : FileRouter) (seq index offset len : ℕ) (w : Waiting) (owner : Owner)
    → current_owner r ≡ some owner
    → Fits (suc k) r
    → Keeps k r (route r seq index offset len w) (w ∷ [])
unfolding route
owned-Keeps k r seq index offset len w server found fits =
    let t : Reading = record {
      seq = seq;
      index = index;
      offset = offset;
      len = len;
      waiting = w;
    } in
    rw (route, found)
      (Fits-less k r fits, λ f. omega (arith, count_one f (λ t. t.waiting) r.reading t))
owned-Keeps k r seq index offset len w (client name) found fits =
    rw (route, found) (ask-Keeps k r name seq index offset len w fits)

route-Keeps :
    (k : ℕ) (r : FileRouter) (seq index offset len : ℕ) (w : Waiting)
    → Fits (suc k) r
    → Keeps k r (route r seq index offset len w) (w ∷ [])
unfolding route
route-Keeps k r seq index offset len w fits = elim (Option-cases (current_owner r)) [
  | inl absent ↦
      rw (route, absent)
        (deliver-Fits k r w not_found (Fits-less k r fits), held-deliver r w not_found)
  | inr (owner, found) ↦ owned-Keeps k r seq index offset len w owner found fits
]

pick_lem :
    (n : ℕ) (ts : List Reading)
    → ((pick n ts).0 ≡ none)
      ⊎ ((x : Reading) × ((pick n ts).0 ≡ some x)
          × ((t : Waiting → Bool)
              → count t (map (λ t. t.waiting) ts)
                ≡ count t (map (λ t. t.waiting) (pick n ts).1) + count t (x.waiting ∷ [])))
unfolding pick
pick_lem n [] = inl refl
pick_lem zero (x ∷ ts) = inr (x, refl, λ t. ground arith)
pick_lem (suc n) (x ∷ ts) = elim (pick_lem n ts) [
  | inl absent ↦ inl absent
  | inr (y, found, c) ↦ inr (y, found, λ t. ground (arith, c t))
]

read_ends-Keeps :
    (k : ℕ) (disk : Disk) (r : FileRouter) (n : ℕ) → Fits k r → Keeps k r (read_ends disk r n) []
unfolding read_ends
read_ends-Keeps k disk r n fits = elim (pick_lem n r.reading) [
  | inl absent ↦ rw (read_ends, absent) (fits, λ t. omega arith)
  | inr (x, found, c) ↦
      let r' : FileRouter = record r { reading = (pick n r.reading).1 } in
      let result = Served.read disk r.local_owner x.seq x.index x.offset x.len in
      rw (read_ends, found)
        (
          deliver-Fits k r' x.waiting result fits,
          λ t. omega (arith, held-deliver r' x.waiting result t, c t),
        )
]

step-Keeps : (k : ℕ) (r : FileRouter) (s : Step) → Fits (suc k) r → Keeps k r (step r s) (asks_in s)
unfolding step announce on_disconnected request_for_client request_local reply_from_client
step-Keeps k r (announced owner seq m) fits = (Fits-less k r fits, λ t. omega arith)
step-Keeps k r (copied seq m paths) fits = (Fits-less k r fits, λ t. omega arith)
step-Keeps k r (left name) fits =
    let r' : FileRouter = record r { current = without_owner name r.current } in
    answer_all-Keeps k r' (stale name r.pending) (Fits-less k r fits)
step-Keeps k r (asked_by_client from seq req index offset len) fits =
    route-Keeps k r seq index offset len (to_client from req) fits
step-Keeps k r (asked_here channel seq index offset len) fits =
    route-Keeps k r seq index offset len (to_local channel) fits
step-Keeps k r (read_done disk n) fits = read_ends-Keeps k disk r n (Fits-less k r fits)
step-Keeps k r (replied from req result) fits =
    answer_with-Keeps k r req (λ p. if p.sent_to is from then result else not_found)
      (Fits-less k r fits)
step-Keeps k r (hub_becomes hub) fits = (Fits-less k r fits, λ t. omega arith)

pub steps-Keeps :
    (r : FileRouter) (ss : List Step) → Fits (length ss) r → Keeps 0 r (steps r ss) (asks ss)
unfolding steps
steps-Keeps r [] fits = (fits, λ t. omega arith)
steps-Keeps r (s ∷ ss) fits =
    let one = step-Keeps (length ss) r s fits in
    let (fits', rest) = steps-Keeps (step r s) ss one.0 in
    (fits', λ t. omega (arith, one.1 t, rest t, count-append t (asks_in s) (asks ss)))

-- No question about a file is lost, and none is answered twice: after any steps from an empty router, fewer
-- than the numbers that a request can have, what was asked is, as often for every test on who asks, what was
-- answered, what waits for a client, and what waits for a read of the server's own files.
pub steps_once :
    (hub : Hub) (ss : List Step) (t : Waiting → Bool)
    → length ss < 18446744073709551615
    → let r = steps (new hub) ss in
      count t (asks ss)
      ≡ count t (answered r)
        + count t (map (λ e. e.1.waiting) r.pending)
        + count t (map (λ x. x.waiting) r.reading)
unfolding new
steps_once hub ss t few =
    let kept : held t (steps (new hub) ss) ≡ 0 + count t (asks ss) =
      (steps-Keeps (new hub) ss (tt, omega (arith, few))).1 t in
    omega (arith, kept)
