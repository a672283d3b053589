-- ===== src/Quartz/TicketLock/Exclusion.antt =====
-- device/quartz/src/arch/arm1176/sync/ticket.rs: at most one thread has the lock.
use okeanos.Prelude.{
  ℕ, ◌+◌, ◌*◌, ◌%◌, ◌^◌, ◌≤◌, ◌<◌, Option, none, some, false, ◌==◌, if-elim, eq_of_test, ◌≡◌, ◌≢◌,
  refl, sym, ap, subst, ◌∙◌, arith,
}
use okeanos.Quartz.TicketLock.{
  owner, next, take_ticket, release, Thread, idle, spinning, holding, System, at, Step, take, look,
  enter, try_lock, unlock, Run, start, step,
}

abbrev ticket : Thread → Option ℕ
ticket idle = none
ticket (spinning o t) = some t
ticket (holding t) = some t

-- What holds of a thread when `o` is the owner and `n` tickets are taken.
abbrev Fits : ℕ → ℕ → Thread → Type 0
Fits o n idle = Unit
Fits o n (spinning seen t) = (seen ≤ o) × (o ≤ t) × (t < n)
Fits o n (holding t) = (t ≡ o) × (t < n)

record IsOrdered (n : ℕ) (s : System) : Type 0 where
  word_is : (owner s.raw ≤ n) × (s.raw ≡ owner s.raw + n * 2 ^ 16)
  fits : (i : ℕ) → Fits (owner s.raw) n (s.threads i)
  distinct : (i j t : ℕ) → ticket (s.threads i) ≡ some t → ticket (s.threads j) ≡ some t → i ≡ j

Fits-more : (o n : ℕ) (t : Thread) → Fits o n t → Fits o (n + 1) t
Fits-more o n idle f = tt
Fits-more o n (spinning seen t) f = (f.0, f.1, omega (arith, f.2))
Fits-more o n (holding t) f = (f.0, omega (arith, f.1))

ticket-lt : (o n : ℕ) (th : Thread) (t : ℕ) → Fits o n th → ticket th ≡ some t → t < n
ticket-lt o n idle t f e = cc
ticket-lt o n (spinning seen t') t f e = let same : t' ≡ t = cc in omega (arith, same, f.2)
ticket-lt o n (holding t') t f e = let same : t' ≡ t = cc in omega (arith, same, f.1)

is_other : (i j : ℕ) → (j == i) ≡ false → i ≢ j
is_other i j h e = ground (arith, h, e)

module _ (s : System) (raw i : ℕ) (t : Thread) where
  at-Fits :
      (o n : ℕ)
      → Fits o n t
      → ((j : ℕ) → i ≢ j → Fits o n (s.threads j))
      → (j : ℕ) → Fits o n ((at s raw i t).threads j)
  at-Fits o n new others j =
      if-elim (Fits o n) (j == i) t (s.threads j) (λ y. new) (λ y. others j (is_other i j y))

  at-distinct :
      ((a b x : ℕ) → ticket (s.threads a) ≡ some x → ticket (s.threads b) ≡ some x → a ≡ b)
      → ((b x : ℕ) → i ≢ b → ticket t ≡ some x → ticket (s.threads b) ≡ some x → ⊥)
      → (a b x : ℕ) → ticket ((at s raw i t).threads a) ≡ some x
      → ticket ((at s raw i t).threads b) ≡ some x
      → a ≡ b
  at-distinct distinct fresh a b x =
      if-elim (λ th. ticket th ≡ some x → ticket ((at s raw i t).threads b) ≡ some x → a ≡ b)
        (a == i) t (s.threads a)
        (λ ai.
          if-elim (λ th. ticket t ≡ some x → ticket th ≡ some x → a ≡ b) (b == i) t (s.threads b)
            (λ bi e f. eq_of_test a i ai ∙ sym (eq_of_test b i bi))
            (λ bo e f. absurd (fresh b x (is_other i b bo) e f)))
        (λ ao.
          if-elim (λ th. ticket (s.threads a) ≡ some x → ticket th ≡ some x → a ≡ b) (b == i) t
            (s.threads b) (λ bi e f. absurd (fresh a x (is_other i a ao) f e))
            (λ bo e f. distinct a b x e f))

module _ (n : ℕ) (s : System) (inv : IsOrdered n s) where
  -- The next ticket is the number of tickets taken so far.
  next_is : n < 2 ^ 16 → next s.raw ≡ n
  next_is lt = omega (arith, inv.word_is.1, lt)

  -- A step that keeps the thread's ticket.
  keeps :
      (i t : ℕ) (th : Thread)
      → ticket (s.threads i) ≡ some t
      → ticket th ≡ some t
      → Fits (owner s.raw) n th
      → IsOrdered n (at s s.raw i th)
  keeps i t th old new f = record {
    word_is = inv.word_is;
    fits = at-Fits s s.raw i th (owner s.raw) n f (λ j other. inv.fits j);
    distinct =
        at-distinct s s.raw i th inv.distinct
          (λ b x other e e'. other (inv.distinct i b x (old ∙ sym new ∙ e) e'));
  }

  -- A step that takes a ticket.
  takes :
      (i : ℕ) (th : Thread)
      → n + 1 < 2 ^ 16
      → ticket th ≡ some (next s.raw)
      → Fits (owner s.raw) (n + 1) th
      → IsOrdered (n + 1) (at s (take_ticket s.raw) i th)
  unfolding take_ticket
  takes i th lt new f =
      let o = owner s.raw in
      let raw' = (s.raw + 2 ^ 16) % 2 ^ 32 in
      let same : owner raw' ≡ o = omega arith in
      record {
        word_is = (omega (arith, same, inv.word_is.0), omega (arith, same, inv.word_is.1, lt));
        fits =
            subst (λ o'. (j : ℕ) → Fits o' (n + 1) ((at s raw' i th).threads j)) (sym same)
              (at-Fits s raw' i th o (n + 1) f
                (λ j other. Fits-more o n (s.threads j) (inv.fits j)));
        distinct = at-distinct s raw' i th inv.distinct (λ b x other e e'.
            let x_is : next s.raw ≡ x = (let h = sym new ∙ e in cc) in
            omega (
              arith,
              x_is,
              next_is (omega (arith, lt)),
              ticket-lt o n (s.threads b) x (inv.fits b) e',
            ));
      }

  -- The thread with the lock gives it up: no other has its ticket, so that all others fit the next owner.
  moves_on :
      (j : ℕ) (th : Thread) (i t : ℕ)
      → s.threads i ≡ holding t
      → i ≢ j
      → s.threads j ≡ th
      → n < 2 ^ 16
      → Fits (owner s.raw) n (holding t)
      → Fits (owner s.raw) n th
      → Fits (owner s.raw + 1) n th
  moves_on j idle i t h other e lt mine f = tt
  moves_on j (spinning seen x) i t h other e lt mine f =
      let apart : x ≢ owner s.raw = λ same.
        let mine' : ticket (s.threads i) ≡ some x = ap ticket h ∙ ap some (mine.0 ∙ sym same) in
        other (inv.distinct i j x mine' (ap ticket e)) in
      (omega (arith, f.0), ground (arith, f.1, apart), f.2)
  moves_on j (holding x) i t h other e lt mine f =
      let mine' : ticket (s.threads i) ≡ some x = ap ticket h ∙ ap some (mine.0 ∙ sym f.0) in
      absurd (other (inv.distinct i j x mine' (ap ticket e)))

  releases :
      (i t : ℕ) → s.threads i ≡ holding t → n < 2 ^ 16 → IsOrdered n (at s (release s.raw) i idle)
  unfolding release
  releases i t h lt =
      let o = owner s.raw in
      let raw' = (s.raw + 1) % 2 ^ 32 in
      let mine : Fits o n (holding t) = subst (Fits o n) h (inv.fits i) in
      let less : o < n = omega (arith, mine.0, mine.1) in
      let up : owner raw' ≡ o + 1 = omega (arith, less, lt, inv.word_is.1) in
      record {
        word_is = (omega (arith, up, less), omega (arith, up, inv.word_is.1, less, lt));
        fits =
            subst (λ o'. (j : ℕ) → Fits o' n ((at s raw' i idle).threads j)) (sym up)
              (at-Fits s raw' i idle (o + 1) n tt
                (λ j other. moves_on j (s.threads j) i t h other refl lt mine (inv.fits j)));
        distinct = at-distinct s raw' i idle inv.distinct (λ b x other e e'. cc);
      }

none_more : (n : ℕ) (s : System) → IsOrdered n s → IsOrdered (n + 0) s
none_more n s inv = subst (λ k. IsOrdered k s) (omega arith) inv

step-IsOrdered :
    (n k : ℕ) (s s' : System) → IsOrdered n s → n + k < 2 ^ 16 → Step s k s' → IsOrdered (n + k) s'
step-IsOrdered n k s s' inv lt (take i h) =
    takes n s inv i (spinning (owner s.raw) (next s.raw)) lt refl (
      (omega arith),
      omega (arith, inv.word_is.0, next_is n s inv (omega (arith, lt))),
      omega (arith, next_is n s inv (omega (arith, lt))),
    )
step-IsOrdered n k s s' inv lt (look i o t h apart) =
    let f : Fits (owner s.raw) n (spinning o t) = subst (Fits (owner s.raw) n) h (inv.fits i) in
    none_more n _
      (keeps n s inv i t (spinning (owner s.raw) t) (ap ticket h) refl (omega arith, f.1, f.2))
step-IsOrdered n k s s' inv lt (enter i t h) =
    let f : Fits (owner s.raw) n (spinning t t) = subst (Fits (owner s.raw) n) h (inv.fits i) in
    none_more n _ (keeps n s inv i t (holding t) (ap ticket h) refl (omega (arith, f.0, f.1), f.2))
step-IsOrdered n k s s' inv lt (try_lock i h free) =
    takes n s inv i (holding (next s.raw)) lt refl
      (sym free, omega (arith, next_is n s inv (omega (arith, lt))))
step-IsOrdered n k s s' inv lt (unlock i t h) =
    none_more n _ (releases n s inv i t h (omega (arith, lt)))

run-IsOrdered : (n : ℕ) (s : System) → Run n s → n < 2 ^ 16 → IsOrdered n s
run-IsOrdered n s start lt = record {
  word_is = (omega arith, omega arith);
  fits = λ i. tt;
  distinct = λ i j t e f. cc;
}
run-IsOrdered n s (step {n = m} {k = k} {s = s0} before one) lt =
    step-IsOrdered m k s0 s (run-IsOrdered m s0 before (omega (arith, lt))) lt one

-- In every state that the threads reach while they take fewer than 65536 tickets, in whatever order their
-- steps come, two threads that have the lock are the same, and its ticket is the owner of the word.
pub run-one_holder :
    (n : ℕ) (s : System) (i j t u : ℕ)
    → Run n s
    → n < 2 ^ 16
    → s.threads i ≡ holding t
    → s.threads j ≡ holding u
    → (i ≡ j) × (t ≡ owner s.raw)
run-one_holder n s i j t u run lt hi hj =
    let inv = run-IsOrdered n s run lt in
    let fi : Fits (owner s.raw) n (holding t) = subst (Fits (owner s.raw) n) hi (inv.fits i) in
    let fj : Fits (owner s.raw) n (holding u) = subst (Fits (owner s.raw) n) hj (inv.fits j) in
    (inv.distinct i j t (ap ticket hi) (ap ticket hj ∙ ap some (fj.0 ∙ sym fi.0)), fi.0)
