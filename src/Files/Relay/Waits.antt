-- ===== src/Files/Relay/Waits.antt =====
-- The questions of the `FileRouter` of files.rs: each is answered once, or still waits.
use geser_desk.Prelude.{
  ℕ, suc, ◌+◌, ◌%◌, ◌==◌, ◌≤◌, ◌<◌, Bool, false, String, List, [], ◌∷◌, ◌++◌, none, some, map,
  arith, ◌≡◌, refl, ap, ◌∙◌, ◌⊎◌, inl, inr, Bool-cases, if◌then◌else◌,
}
use geser_desk.Message.{ServerMsg, FileReadResult}
use geser_desk.Hub.{send}
use geser_desk.Files.Relay.{
  Waiting, to_client, to_local, Pending, FileRouter, deliver, take_out, put, answer_with,
  answer_all, not_found, ask,
}

-- The keys are numbers given out already, the newest first.
abbrev pub Below : ℕ → List (ℕ × Pending) → Type 0
Below n [] = Unit
Below n ((req, p) ∷ rest) = (req < n) × Below req rest

-- How many pass a test.
abbrev pub count : (Waiting → Bool) → List Waiting → ℕ
count t [] = 0
count t (w ∷ ws) = let rest = count t ws in if t w then 1 + rest else rest

abbrev pub answered : FileRouter → List Waiting
answered r = map (λ a. a.0) r.answers

abbrev pub waiting : FileRouter → List Waiting
waiting r = map (λ e. e.1.waiting) r.pending ++ map (λ t. t.waiting) r.reading

abbrev all_of : FileRouter → List Waiting
all_of r = answered r ++ waiting r

-- What the router holds, by a test: the answers, what waits for a client, what waits for a read.
abbrev pub held : (Waiting → Bool) → FileRouter → ℕ
held t r =
    count t (answered r)
    + count t (map (λ e. e.1.waiting) r.pending)
    + count t (map (λ t. t.waiting) r.reading)

pub count-append :
    (t : Waiting → Bool) (a b : List Waiting) → count t (a ++ b) ≡ count t a + count t b
count-append t [] b = omega arith
count-append t (w ∷ a) b = ground (arith, count-append t a b)

count-cons :
    (t : Waiting → Bool) (w : Waiting) (ws : List Waiting)
    → count t (w ∷ ws) ≡ count t (w ∷ []) + count t ws
count-cons t w ws = elim (Bool-cases (t w)) [
  | inl y ↦ rw y (omega arith)
  | inr n ↦ rw n (omega arith)
]

map-append : {A : Type 0} (f : A → Waiting) (a b : List A) → map f (a ++ b) ≡ map f a ++ map f b
map-append f [] b = refl
map-append f (x ∷ a) b = rw (map-append f a b)

pub count_one :
    {A : Type 0} (t : Waiting → Bool) (f : A → Waiting) (a : List A) (x : A)
    → count t (map f (a ++ (x ∷ []))) ≡ count t (map f a) + count t (f x ∷ [])
count_one t f a x = ap (count t) (map-append f a (x ∷ [])) ∙ count-append t (map f a) (f x ∷ [])

Below-later : (a b : ℕ) (m : List (ℕ × Pending)) → a ≤ b → Below a m → Below b m
Below-later a b [] le below = tt
Below-later a b ((req, p) ∷ rest) le below = (omega (arith, le, below.0), below.1)

-- What is taken out is what is missing.
pub take_out_lem :
    (req : ℕ) (n : ℕ) (m : List (ℕ × Pending))
    → Below n m
    → (((take_out req m).0 ≡ none) × ((take_out req m).1 ≡ m))
      ⊎ ((p : Pending) × ((take_out req m).0 ≡ some p)
          × Below n (take_out req m).1
          × ((t : Waiting → Bool)
              → count t (map (λ e. e.1.waiting) m)
                ≡ count t (map (λ e. e.1.waiting) (take_out req m).1) + count t (p.waiting ∷ [])))
unfolding take_out
take_out_lem req n [] below = inl (refl, refl)
take_out_lem req n ((at, q) ∷ rest) below = elim (Bool-cases (at == req)) [
  | inl t ↦ inr (
    q,
    rw (take_out, t) refl,
    rw (take_out, t) (Below-later at n rest (omega (arith, below.0)) below.1),
    λ f. rw (take_out, t) (ground arith),
  )
  | inr f ↦ elim (take_out_lem req at rest below.1) [
    | inl (absent, same) ↦ inl (rw (take_out, f) absent, rw (take_out, f) rw same refl)
    | inr (p, got, b, c) ↦ inr (
      p,
      rw (take_out, f) got,
      rw (take_out, f) (below.0, b),
      λ t. rw (take_out, f) (ground (arith, c t)),
    )
  ]
]

-- The numbers given out fit for `k` more questions, and are newer than those that wait.
abbrev pub Fits : ℕ → FileRouter → Type 0
Fits k r = Below r.next_req r.pending × (r.next_req + k < 18446744073709551616)

-- A step of the router that asks for `ws`.
abbrev pub Keeps : ℕ → FileRouter → FileRouter → List Waiting → Type 0
Keeps k r r' ws = Fits k r' × ((t : Waiting → Bool) → held t r' ≡ held t r + count t ws)

pub held-deliver :
    (r : FileRouter) (w : Waiting) (result : FileReadResult) (t : Waiting → Bool)
    → held t (deliver r w result) ≡ held t r + count t (w ∷ [])
unfolding deliver
held-deliver r (to_client name req) result t =
    omega (arith, count_one t (λ a. a.0) r.answers (to_client name req, result))
held-deliver r (to_local n) result t =
    omega (arith, count_one t (λ a. a.0) r.answers (to_local n, result))

pub deliver-Fits :
    (k : ℕ) (r : FileRouter) (w : Waiting) (result : FileReadResult)
    → Fits k r
    → Fits k (deliver r w result)
unfolding deliver
deliver-Fits k r (to_client name req) result fits = fits
deliver-Fits k r (to_local n) result fits = fits

pub answer_with-Keeps :
    (k : ℕ) (r : FileRouter) (req : ℕ) (result : Pending → FileReadResult)
    → Fits k r
    → Keeps k r (answer_with r req result) []
unfolding answer_with
answer_with-Keeps k r req result fits = elim (take_out_lem req r.next_req r.pending fits.0) [
  | inl (absent, same) ↦ rw (answer_with, absent) (fits, λ t. omega arith)
  | inr (p, got, below, counted) ↦
      let r' : FileRouter = record r { pending = (take_out req r.pending).1 } in
      rw (answer_with, got)
        (
          deliver-Fits k r' p.waiting (result p) (below, fits.1),
          λ t. omega (arith, held-deliver r' p.waiting (result p) t, counted t),
        )
]

pub answer_all-Keeps :
    (k : ℕ) (r : FileRouter) (reqs : List ℕ) → Fits k r → Keeps k r (answer_all r reqs) []
unfolding answer_all
answer_all-Keeps k r [] fits = (fits, λ t. omega arith)
answer_all-Keeps k r (req ∷ reqs) fits =
    let one = answer_with-Keeps k r req (λ p. not_found) fits in
    let (fits', rest) = answer_all-Keeps k (answer_with r req (λ p. not_found)) reqs one.0 in
    (fits', λ t. omega (arith, one.1 t, rest t))

take_out_none : (n : ℕ) (m : List (ℕ × Pending)) (k : ℕ) → Below k m → k ≤ n → (take_out n m).1 ≡ m
unfolding take_out
take_out_none n [] k below le = refl
take_out_none n ((at, p) ∷ rest) k below le =
    let other : (at == n) ≡ false = ground (arith, below.0, le) in
    let rest_same = take_out_none n rest at below.1 (omega (arith, below.0, le)) in
    rw (take_out, other) (ap (λ l. (at, p) ∷ l) rest_same)

pub ask-Keeps :
    (k : ℕ) (r : FileRouter) (name : String) (seq index offset len : ℕ) (w : Waiting)
    → Fits (suc k) r
    → Keeps k r (ask r name seq index offset len w) (w ∷ [])
unfolding ask put
ask-Keeps k r name seq index offset len w fits =
    let sent = send r.hub name (ServerMsg.file_read seq r.next_req index offset len) in
    let p : Pending = record { sent_to = name; waiting = w } in
    let r' : FileRouter = record r {
      next_req = (r.next_req + 1) % 18446744073709551616;
      pending = put r.next_req p r.pending;
      hub = sent.0;
    } in
    let same = take_out_none r.next_req r.pending r.next_req fits.0 (omega arith) in
    let next : (r.next_req + 1) % 18446744073709551616 ≡ r.next_req + 1 = omega (arith, fits.1) in
    let fits' : Fits k r' = rw next rw same ((omega arith, fits.0), omega (arith, fits.1)) in
    let grown : (t : Waiting → Bool) → held t r' ≡ held t r + count t (w ∷ []) =
      λ t. rw same (omega (arith, count-cons t w (map (λ e. e.1.waiting) r.pending))) in
    elim (Bool-cases sent.1) [
      | inl t ↦ rw (ask, t) (fits', grown)
      | inr f ↦
          let (fits'', more) = answer_with-Keeps k r' r.next_req (λ p. not_found) fits' in
          rw (ask, f) (fits'', λ t. omega (arith, more t, grown t))
    ]
