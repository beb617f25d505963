-- ===== src/Files/Pull/Loop.antt =====
-- The loop of pull.rs over the chunks of one file.
use geser_desk.Prelude.{
  ℕ, zero, suc, ◌+◌, ◌-◌, ◌≤◌, ◌<◌, true, false, List, [], ◌∷◌, ◌++◌, arith, ◌≡◌, refl, ◌⊎◌, inl,
  inr, Bool-cases, length, length-append, ltb, min,
}
use geser_desk.Message.{FileReadResult}
use geser_desk.Files.{FileEntry}
use geser_desk.Files.Owner.{max_read_len}
use geser_desk.Files.Pull.{
  PullError, short_read, timeout, io, Arrival, answer, timed_out, World, Pulling, done, stopped,
  Plan, on_data, on_arrival, want, copy, with_chunk, read,
}

-- No answer is longer than what was asked for.
unfoldable pub IsMeasured : World → Type 0
IsMeasured w =
    (i o n : ℕ) (bs : List ℕ) → w.arrives i o n ≡ answer (FileReadResult.bytes bs) → length bs ≤ n

-- What the loop leaves: the size is reached, every byte is counted once, and nothing else has changed.
pub record Filled (w : World) (e : FileEntry) (g g' : Pulling) : Type 0 where
  pub reached : e.size ≤ g'.offset
  pub not_passed : IsMeasured w → g.offset ≤ e.size → g'.offset ≤ e.size
  pub lengths : length g'.written + g.offset ≡ length g.written + g'.offset
  pub counts : g'.bytes_done + g.offset ≡ g.bytes_done + g'.offset
  pub same_index : g'.file_index ≡ g.file_index
  pub same_folders : g'.folders ≡ g.folders
  pub same_files : g'.files ≡ g.files

-- An answer stops the pull, or is a chunk with a byte in it.
on_arrival_cases :
    (w : World) (plan : Plan) (i : ℕ) (e : FileEntry) (g : Pulling) (a : Arrival)
    → g.offset < e.size
    → ((bs : List ℕ) × (a ≡ answer (FileReadResult.bytes bs))
        × (0 < length bs)
        × (on_arrival w plan i e g a ≡ done (with_chunk plan e g bs)))
      ⊎ ((x : PullError) × (on_arrival w plan i e g a ≡ stopped x))
unfolding on_arrival on_data
on_arrival_cases w plan i e g (answer (FileReadResult.bytes [])) below =
    let short : ltb g.offset e.size ≡ true = ground (arith, below) in
    inr (short_read, rw short refl)
on_arrival_cases w plan i e g (answer (FileReadResult.bytes (b ∷ bs))) below =
    elim (Bool-cases (w.writes i g.offset)) [
      | inl t ↦ inl (b ∷ bs, refl, omega arith, rw t refl)
      | inr f ↦ inr (io, rw f refl)
    ]
on_arrival_cases w plan i e g (answer (FileReadResult.err x)) below = inr (read x, refl)
on_arrival_cases w plan i e g timed_out below = inr (timeout, refl)
on_arrival_cases w plan i e g Arrival.cancelled below = inr (PullError.cancelled, refl)

Filled-refl : (w : World) (e : FileEntry) (g : Pulling) → e.size ≤ g.offset → Filled w e g g
Filled-refl w e g reached = record {
  reached = reached;
  not_passed = λ _ le. le;
  lengths = refl;
  counts = refl;
  same_index = refl;
  same_folders = refl;
  same_files = refl;
}

Filled-chunk :
    (w : World) (plan : Plan) (i : ℕ) (e : FileEntry) (g g' : Pulling) (bs : List ℕ)
    → g.offset < e.size
    → w.arrives i g.offset (want e g) ≡ answer (FileReadResult.bytes bs)
    → Filled w e (with_chunk plan e g bs) g'
    → Filled w e g g'
unfolding IsMeasured
Filled-chunk w plan i e g g' bs below came f =
    let joined : length (g.written ++ bs) ≡ length g.written + length bs =
      length-append g.written bs in
    record {
      reached = f.reached;
      not_passed = λ measured le.
          let fits : length bs ≤ min (e.size - g.offset) max_read_len =
            measured i g.offset (want e g) bs came in
          let within : min (e.size - g.offset) max_read_len ≤ e.size - g.offset = ground arith in
          f.not_passed measured (omega (arith, fits, within, below));
      lengths = omega (arith, f.lengths, joined);
      counts = omega (arith, f.counts);
      same_index = f.same_index;
      same_folders = f.same_folders;
      same_files = f.same_files;
    }

-- The loop ends with the file filled or the pull stopped: the fuel is enough when it is what the file lacks.
pub copy_total :
    (fuel : ℕ) (w : World) (plan : Plan) (i : ℕ) (e : FileEntry) (g : Pulling)
    → e.size ≤ g.offset + fuel
    → ((g' : Pulling) × (copy fuel w plan i e g ≡ done g') × Filled w e g g')
      ⊎ ((x : PullError) × (copy fuel w plan i e g ≡ stopped x))
unfolding copy
copy_total zero w plan i e g enough =
    let full : ltb g.offset e.size ≡ false = ground (arith, enough) in
    inl (g, rw full refl, Filled-refl w e g (omega (arith, enough)))
copy_total (suc fuel) w plan i e g enough = elim (Bool-cases (ltb g.offset e.size)) [
  | inr f ↦
      let reached : e.size ≤ g.offset = ground (arith, f) in
      inl (g, rw (copy, f) refl, Filled-refl w e g reached)
  | inl t ↦
      let below : g.offset < e.size = ground (arith, t) in
      elim (on_arrival_cases w plan i e g (w.arrives i g.offset (want e g)) below) [
        | inr (x, s) ↦ inr (x, rw (copy, t) rw s refl)
        | inl (bs, came, some_byte, d) ↦
            elim (copy_total fuel w plan i e (with_chunk plan e g bs)
              (omega (arith, enough, some_byte))) [
                | inl (g', c, f) ↦
                    inl (g', rw (copy, t) rw d c, Filled-chunk w plan i e g g' bs below came f)
                | inr (x, s) ↦ inr (x, rw (copy, t) rw d s)
              ]
      ]
]
