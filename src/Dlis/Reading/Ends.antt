-- ===== src/Dlis/Reading/Ends.antt =====
-- dlis.cc, do_parse: the loop over the file comes to an end.
use dlis_parser.Base.{
  ℕ, zero, suc, ◌<◌, ◌≤◌, ◌≡◌, ◌⊎◌, refl, arith, inl, inr, subst, [], ◌++◌, ◌∷◌, Bool, Bool-cases,
  true, false, List, take, drop, length, ltb, ltb→le, ltb→lt, ◌≢◌,
}
use dlis_parser.Base.Lists.{length-take, length-drop, take-drop}
use dlis_parser.Codec.Value.{Outcome, ok, exit, fault, hang, ◌>>=◌}
use dlis_parser.Dlis.State.{Dlis}
use dlis_parser.Dlis.Parse.Fuel.{Finishes, ended, exited, faulted, RunsOn}
use dlis_parser.Dlis.Input.{dlis_read}
use dlis_parser.Dlis.Input.Ends.{read_fuel, dlis_read-Finishes}
use dlis_parser.Dlis.Sound.{IsSound}
use dlis_parser.Dlis.Sound.Loop.{start, read, Reaches-IsSound}
use dlis_parser.Dlis.Reading.{read_size, read_loop}

-- The loop behind a read.
abbrev reads_on : ℕ → List ℕ → Outcome (Bool × Dlis) → Outcome (Bool × Dlis)
reads_on reads file (ok (false, d)) = ok (false, d)
reads_on reads file (ok (true, d)) = elim (ltb (length (take read_size file)) read_size) [
  | true ↦ ok (true, d)
  | false ↦ read_loop reads d (drop read_size file)
]
reads_on reads file exit = exit
reads_on reads file fault = fault
reads_on reads file hang = hang

bind-reads_on :
    (reads : ℕ) (file : List ℕ) (r : Outcome (Bool × Dlis))
    → (r >>= λ (parsed, d'). elim parsed [
      | false ↦ ok (false, d')
      | true ↦ elim (ltb (length (take read_size file)) read_size) [
        | true ↦ ok (true, d')
        | false ↦ read_loop reads d' (drop read_size file)
      ]
    ])
      ≡ reads_on reads file r
bind-reads_on reads file (ok (false, d)) = refl
bind-reads_on reads file (ok (true, d)) = refl
bind-reads_on reads file exit = refl
bind-reads_on reads file fault = refl
bind-reads_on reads file hang = refl

read_loop-suc :
    (reads : ℕ) (d : Dlis) (file : List ℕ)
    → read_loop (suc reads) d file
      ≡ reads_on reads file (dlis_read read_fuel d (take read_size file))
unfolding read_loop
read_loop-suc reads d file = bind-reads_on reads file (dlis_read read_fuel d (take read_size file))

-- A read that is not the last leaves less of the file.
shorter :
    (file : List ℕ) (reads : ℕ)
    → ltb (length (take read_size file)) read_size ≡ false
    → length file < suc reads
    → length (drop read_size file) < reads
shorter file reads full enough = omega (
  arith,
  ltb→le (length (take read_size file)) read_size full,
  length-take read_size file,
  length-drop read_size file,
)

reads_on-Finishes :
    (reads : ℕ) (d : Dlis) (file : List ℕ)
    → ((d' : Dlis) (rest : List ℕ)
        → length rest < reads
        → IsSound d'
        → Finishes (read_loop reads d' rest) ⊎ RunsOn (read_loop reads d' rest))
    → length file < suc reads
    → IsSound d
    → (r : Outcome (Bool × Dlis)) → dlis_read read_fuel d (take read_size file) ≡ r
    → Finishes r ⊎ RunsOn r
    → Finishes (reads_on reads file r) ⊎ RunsOn (reads_on reads file r)
reads_on-Finishes reads d file below enough s (ok (true, d')) e done =
    elim (Bool-cases (ltb (length (take read_size file)) read_size)) [
      | inl last ↦ rw (last, reads_on) (inl (ended d'))
      | inr full ↦
          rw (full, reads_on)
            (below d' (drop read_size file) (shorter file reads full enough)
              (Reaches-IsSound d d' (read read_fuel (take read_size file) start e) s))
    ]
reads_on-Finishes reads d file below enough s (ok (false, d')) e (inr stuck) = inr stuck
reads_on-Finishes reads d file below enough s (ok (false, d')) e (inl done) = elim done [ ]
reads_on-Finishes reads d file below enough s exit e done = inl exited
reads_on-Finishes reads d file below enough s fault e done = inl faulted
reads_on-Finishes reads d file below enough s hang e done = inr (inr refl)

pub read_loop-Finishes :
    (reads : ℕ) (d : Dlis) (file : List ℕ)
    → length file < reads
    → IsSound d
    → Finishes (read_loop reads d file) ⊎ RunsOn (read_loop reads d file)
read_loop-Finishes zero d file enough s = absurd (omega (arith, enough))
read_loop-Finishes (suc reads) d file enough s = rw (read_loop-suc reads d file) (
    reads_on-Finishes reads d file (λ d' rest. read_loop-Finishes reads d' rest) enough s
      (dlis_read read_fuel d (take read_size file)) refl
      (dlis_read-Finishes d (take read_size file) s))

-- The state after the bytes of the list have been handed to `dlis_read`, in pieces that are parsed to
-- the end of the loop, none longer than a read.
pub data Fed : Dlis → List ℕ → Dlis → Type 0 where
  nothing : (d : Dlis) → Fed d [] d
  piece :
      {d d' d'' : Dlis} {bs : List ℕ} (chunk : List ℕ)
      → length chunk ≤ read_size
      → dlis_read read_fuel d chunk ≡ ok (true, d')
      → Fed d' bs d''
      → Fed d (chunk ++ bs) d''

empty : (xs : List ℕ) → length xs ≡ 0 → xs ≡ []
empty [] e = refl
empty (x ∷ xs) e = absurd (omega (arith, e))

last_piece : (n : ℕ) (file : List ℕ) → ltb (length (take n file)) n ≡ true → drop n file ≡ []
last_piece n file last =
    empty (drop n file)
      (omega (arith, ltb→lt (length (take n file)) n last, length-take n file, length-drop n file))

no_reads : (d d' : Dlis) (file : List ℕ) → read_loop zero d file ≢ ok (true, d')
unfolding read_loop
no_reads d d' file e = cc

same_end : (d d' : Dlis) → ◌≡◌ {A = Outcome (Bool × Dlis)} (ok (true, d)) (ok (true, d')) → d ≡ d'
same_end d d' e = cc

reads_on-Fed :
    (reads : ℕ) (d d'' : Dlis) (file : List ℕ)
    → ((d' : Dlis) (rest : List ℕ) → read_loop reads d' rest ≡ ok (true, d'') → Fed d' rest d'')
    → (r : Outcome (Bool × Dlis)) → dlis_read read_fuel d (take read_size file) ≡ r
    → reads_on reads file r ≡ ok (true, d'')
    → Fed d (take read_size file ++ drop read_size file) d''
reads_on-Fed reads d d'' file below (ok (true, d')) e ends =
    let bounded : length (take read_size file) ≤ read_size =
      omega (arith, length-take read_size file) in
    elim (Bool-cases (ltb (length (take read_size file)) read_size)) [
      | inl last ↦ rw (last_piece read_size file last) (
          piece (take read_size file) bounded e
            (subst (λ x. Fed d' [] x) (same_end d' d'' (rw (last, reads_on) at ends)) (nothing d')))
      | inr full ↦
          piece (take read_size file) bounded e
            (below d' (drop read_size file) (rw (full, reads_on) at ends))
    ]
reads_on-Fed reads d d'' file below (ok (false, d')) e ends = cc
reads_on-Fed reads d d'' file below exit e ends = cc
reads_on-Fed reads d d'' file below fault e ends = cc
reads_on-Fed reads d d'' file below hang e ends = cc

-- If the loop over the file ends at the end of the file, all bytes of the file have been handed
-- to `dlis_read`, each once and in order, in pieces of at most 4000 bytes that were each parsed
-- to the end of the loop.
pub read_loop-Fed :
    (reads : ℕ) (d d' : Dlis) (file : List ℕ)
    → read_loop reads d file ≡ ok (true, d')
    → Fed d file d'
read_loop-Fed zero d d' file ends = absurd (no_reads d d' file ends)
read_loop-Fed (suc reads) d d' file ends =
    subst (λ bs. Fed d bs d') (take-drop read_size file)
      (reads_on-Fed reads d d' file (λ d₁ rest. read_loop-Fed reads d₁ d' rest)
        (dlis_read read_fuel d (take read_size file)) refl
        (rw (read_loop-suc reads d file) at ends))
