-- ===== src/Reactor/Ends.antt =====
-- What one dispatch does to the sources: every source that is ready gets its handler's turn, and an
-- ended one is closed once.
use Prim.Native.Char.{Char, code}
use cpp_design_patterns.Prelude.{
  ℕ, zero, suc, ◌+◌, ◌≤◌, ◌<◌, ◌≡◌, ◌≢◌, refl, subst, ◌⊎◌, inl, inr, String, ◌<>◌, List, [], ◌∷◌,
  Bool, true, false, ◌||◌, Option, some, eqb, if◌then◌else◌, ◌==◌, Bool-cases, arith,
}
use cpp_design_patterns.Prelude.Int.{ℤ, int_eq}
use cpp_design_patterns.Prelude.Result.{Result, ok}
use cpp_design_patterns.Log.{Log}
use cpp_design_patterns.Reactor.{
  ReadResult, failed, end_of_file, byte, Watcher, Os, pollin, pollerr, pollhup, drain_one_message,
}
use cpp_design_patterns.Reactor.Fd.{no_fd}

abbrev pub is_flagged : ℕ → Bool
is_flagged r = pollin r || (pollhup r || pollerr r)

-- Some watched descriptor is flagged.
abbrev pub AnyFlagged : List Watcher → List ℕ → Type 0
AnyFlagged [] rs = ⊥
AnyFlagged (w ∷ ws) [] = ⊥
AnyFlagged (w ∷ ws) (r ∷ rs) = ((w.fd ≢ no_fd) × (is_flagged r ≡ true)) ⊎ AnyFlagged ws rs

abbrev pub AllRetired : List Watcher → Type 0
AllRetired [] = Unit
AllRetired (w ∷ ws) = (w.fd ≡ no_fd) × AllRetired ws

-- How a read uses up what is left for it.
abbrev pub Uses : ℕ → ReadResult → ℕ → Type 0
Uses before failed after = ⊥
Uses before end_of_file after = after ≤ before
Uses before (byte c) after = after < before

-- How many of the watchers watch a descriptor.
abbrev pub watches : ℤ → Watcher → ℕ
watches d w = if w.fd == d then 1 else 0

abbrev pub watch_count : ℤ → List Watcher → ℕ
watch_count d [] = 0
watch_count d (w ∷ ws) = watches d w + watch_count d ws

-- Every watched descriptor is open.
abbrev pub AllOpen : {S : Type 0} → (ℤ → S → Type 0) → List Watcher → S → Type 0
AllOpen IsOpen ws s = (d : ℤ) → d ≢ no_fd → 0 < watch_count d ws → IsOpen d s

-- No descriptor is watched twice.
abbrev pub AllDistinct : List Watcher → Type 0
AllDistinct ws = (d : ℤ) → d ≢ no_fd → watch_count d ws ≤ 1

-- Writers that write finitely many bytes, with finitely many pauses, and then close their ends, seen from the open
-- read ends of their pipes: a measure of what they have left to do, pauses counted by the time-outs of `poll` that
-- they last. No signal interrupts a call. `poll` on open read ends (a negative descriptor is passed over)
-- answers; it flags a descriptor, or a time-out has passed, or there was none to watch. A read of an open read end
-- waits for a byte, which is used up, or for the end of the file. A descriptor stays open until it is
-- closed. Nothing is said of a descriptor that is not open.
pub record Finite (os : Os) : Type 1 where
  pub left : os.State → ℕ
  pub IsOpen : ℤ → os.State → Type 0
  pub poll_answers :
      (ws : List Watcher) (s : os.State)
      → AllOpen IsOpen ws s
      → (rs : List ℕ) × ((os.poll ws s).1 ≡ some rs)
        × (left (os.poll ws s).0 ≤ left s)
        × ((left (os.poll ws s).0 < left s) ⊎ (AnyFlagged ws rs ⊎ AllRetired ws))
  pub poll_keeps :
      (ws : List Watcher) (s : os.State) (d : ℤ) → IsOpen d s → IsOpen d (os.poll ws s).0
  pub read_uses :
      (fd : ℤ) (s : os.State) → IsOpen fd s → Uses (left s) (os.read fd s).1 (left (os.read fd s).0)
  pub read_keeps : (fd : ℤ) (s : os.State) (d : ℤ) → IsOpen d s → IsOpen d (os.read fd s).0
  pub close_keeps : (fd : ℤ) (s : os.State) → IsOpen fd s → left (os.close fd s) ≤ left s
  pub close_others :
      (fd : ℤ) (s : os.State) (d : ℤ) → d ≢ fd → IsOpen d s → IsOpen d (os.close fd s)

-- Whether a watcher still counts.
abbrev pub is_open : Watcher → ℕ
is_open w = if w.fd == no_fd then 0 else 1

read_cases : (n : ReadResult) → (n ≡ failed) ⊎ ((n ≡ end_of_file) ⊎ ((c : Char) × (n ≡ byte c)))
read_cases failed = inl refl
read_cases end_of_file = inr (inl refl)
read_cases (byte c) = inr (inr (c, refl))

module _ (os : Os) (finite : Finite os) where
  -- A handler's turn on writers that end.
  pub record Drained (s : os.State) (d : Option ((os.State × Log) × Result Bool)) : Type 0 where
    pub state : os.State
    pub log : Log
    pub stays : Bool
    pub result : d ≡ some ((state, log), ok stays)
    pub no_more : finite.left state ≤ finite.left s
    pub less : stays ≡ true → finite.left state < finite.left s
    pub keeps : (d : ℤ) → finite.IsOpen d s → finite.IsOpen d state

  pub drain-Drained :
      (fuel : ℕ) (fd : ℤ) (name message : String) (s : os.State) (log : Log)
      → finite.left s < fuel
      → finite.IsOpen fd s
      → Drained s (drain_one_message os fuel fd name message (s, log))
  unfolding drain_one_message
  drain-Drained zero fd name message s log h o = absurd (omega arith)
  drain-Drained (suc fuel) fd name message s log h o =
      let used = λ (n : ReadResult) (e : (os.read fd s).1 ≡ n).
        subst (λ m. Uses (finite.left s) m (finite.left (os.read fd s).0)) e
          (finite.read_uses fd s o) in
      elim (read_cases (os.read fd s).1) [
        | inl e ↦ absurd (used failed e)
        | inr (inl e) ↦
            rw (drain_one_message, e)
              record {
                state = (os.read fd s).0;
                log = _;
                stays = false;
                result = refl;
                no_more = used end_of_file e;
                less = λ q. absurd (cc);
                keeps = finite.read_keeps fd s;
              }
        | inr (inr (c, e)) ↦
            let lower = used (byte c) e in
            elim (Bool-cases (eqb (code c) b'\n')) [
              | inl y ↦
                  rw (drain_one_message, e, y)
                    record {
                      state = (os.read fd s).0;
                      log = _;
                      stays = true;
                      result = refl;
                      no_more = omega arith;
                      less = λ q. lower;
                      keeps = finite.read_keeps fd s;
                    }
              | inr n ↦
                  let later =
                    drain-Drained fuel fd name (message <> String.◌∷◌ c String.[]) (os.read fd s).0
                      log (omega arith) (finite.read_keeps fd s fd o) in
                  rw (drain_one_message, e, n)
                    record {
                      state = later.state;
                      log = later.log;
                      stays = later.stays;
                      result = later.result;
                      no_more = omega (arith, later.no_more);
                      less = λ q. omega (arith, later.no_more);
                      keeps = λ d u. later.keeps d (finite.read_keeps fd s d u);
                    }
            ]
      ]
