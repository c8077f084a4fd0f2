-- ===== src/FsWatch/Live/Steps.antt =====
-- What a watch in src/fs_watch.c keeps to, in every state that its steps reach.
use kuu.Prelude.{
  ℕ, ◌+◌, ◌-◌, ◌≤◌, ◌<◌, ◌≡◌, refl, ap, sym, ◌∙◌, Bool, true, false, not, List, [], ◌∷◌, ◌++◌,
  Option, some, none, ltb, ◌==◌, ◌&&◌, if◌then◌else◌, Bytes, length, length-append, arith,
  Bool-cases, by_if, inl, inr, ◌⊎◌,
}
use kuu.FsWatch.{WatchEvent, Watch, wake_all, wake_one, watch_maybe_free, post_read}
use kuu.FsWatch.Batch.{parse_batch}
use kuu.FsWatch.Batch.Bounds.{parse_batch-Kept}
use kuu.FsWatch.Drain.{drain_events}
use kuu.FsWatch.Live.{
  on_io, Read, rest_of, resumed_one, read_push, remove, read_timeout, watch_read, watch_release,
  Step, io_step, push_step, timeout_step, read_step, release_step, IsLive, Run, start, next,
}

watch_maybe_free-IsLive : (w : Watch) → IsLive w → IsLive (watch_maybe_free w)
unfolding watch_maybe_free
watch_maybe_free-IsLive w l = elim (Bool-cases (w.closed && not w.io && w.woken == 0)) [
  | inr e ↦ rw e l
  | inl e ↦ rw e (record {
    served = l.served;
    quiet = l.quiet;
    counted = l.counted;
    ended = l.ended;
    last = λ f. (ground arith, ground arith, ground arith);
  })
]

wake_all-IsLive :
    (w : Watch)
    → w.woken ≡ length w.resumed
    → (w.closed ≡ true → w.stopped ≡ true)
    → w.freed ≡ false
    → IsLive (wake_all w)
unfolding wake_all
wake_all-IsLive w counted ended f = record {
  served = λ p q. absurd (omega arith);
  quiet = λ e. refl;
  counted = omega (arith, counted, length-append (w.resumed) (w.waiters));
  ended = ended;
  last = λ e. absurd (cc);
}

remove_le : (t : ℕ) (line : List ℕ) → length (remove t line) ≤ length line
unfolding remove
remove_le t [] = omega arith
remove_le t (u ∷ line) = ground (arith, remove_le t line)

read_timeout-IsLive : (w : Watch) (t : ℕ) → IsLive w → IsLive (read_timeout t w)
unfolding read_timeout
read_timeout-IsLive w t l =
    let short = remove_le t w.waiters in
    record {
      served = λ p q. l.served p (omega (arith, short));
      quiet = λ e. omega (arith, l.quiet e, short);
      counted = l.counted;
      ended = l.ended;
      last = l.last;
    }

not_freed : (w : Watch) → IsLive w → (w.closed ≡ false) ⊎ (w.io ≡ true) → w.freed ≡ false
not_freed w l (inl e) = elim (Bool-cases w.freed) [
  | inr f ↦ f
  | inl f ↦ absurd (ground (arith, l.last f))
]
not_freed w l (inr e) = elim (Bool-cases w.freed) [
  | inr f ↦ f
  | inl f ↦ absurd (ground (arith, l.last f))
]

watch_release-IsLive : (w : Watch) → w.closed ≡ false → IsLive w → IsLive (watch_release w)
unfolding watch_release
watch_release-IsLive w e l =
    rw e
      (watch_maybe_free-IsLive _ (wake_all-IsLive _ l.counted (λ c. refl) (not_freed w l (inl e))))

length-rest_of : (line : List ℕ) → length (rest_of line) ≡ length line - 1
length-rest_of [] = omega arith
length-rest_of (t ∷ rest) = omega arith

empty-IsLive :
    (w : Watch)
    → length w.events ≡ 0
    → (w.stopped ≡ true → length w.waiters ≡ 0)
    → w.woken ≡ length w.resumed
    → (w.closed ≡ true → w.stopped ≡ true)
    → (w.freed ≡ true → (w.closed ≡ true) × (w.io ≡ false) × (w.woken ≡ 0))
    → IsLive w
empty-IsLive w bare quiet counted ended last = record {
  served = λ p q. absurd (omega arith);
  quiet = quiet;
  counted = counted;
  ended = ended;
  last = last;
}

parked-IsLive :
    (w : Watch) (line : List ℕ)
    → (0 < length w.events → 0 < w.woken)
    → w.stopped ≡ false
    → IsLive w
    → IsLive (record w { waiters = line })
parked-IsLive w line busy running l = record {
  served = λ p q. busy p;
  quiet = λ f. absurd (cc);
  counted = l.counted;
  ended = l.ended;
  last = l.last;
}

watch_read-IsLive : (w : Watch) (t : ℕ) → w.closed ≡ false → IsLive w → IsLive (watch_read t w).0
unfolding watch_read drain_events
watch_read-IsLive w t e l =
    by_if {A = Watch × Option Read} (λ r. IsLive r.0) (ltb 0 (length w.events) && w.woken == 0) _ _
      (λ take. empty-IsLive (record w { events = [] }) refl l.quiet l.counted l.ended l.last)
      (λ wait.
        by_if {A = Watch × Option Read} (λ r. IsLive r.0) w.stopped _ _ (λ over. l)
          (λ running. parked-IsLive w (w.waiters ++ (t ∷ [])) (λ p. ground arith) running l))

resumed_one-IsLive :
    (w : Watch) (events : List WatchEvent)
    → 0 < length w.resumed
    → (0 < length events → length w.waiters ≡ 0)
    → IsLive w
    → IsLive (record (resumed_one w) { events = events })
resumed_one-IsLive w events pos alone l = record {
  served = λ p q. absurd (omega (arith, alone p));
  quiet = l.quiet;
  counted = omega (arith, l.counted, length-rest_of w.resumed);
  ended = l.ended;
  last = λ f. absurd (omega (arith, (l.last f).2, l.counted));
}

read_push-IsLive : (w : Watch) → 0 < length w.resumed → IsLive w → IsLive (read_push w).0
unfolding read_push drain_events
read_push-IsLive w pos l =
    let back : (0 < length w.events → length w.waiters ≡ 0)
        → IsLive (watch_maybe_free (resumed_one w)) =
      λ alone.
        watch_maybe_free-IsLive (resumed_one w) (resumed_one-IsLive w w.events pos alone l) in
    by_if {A = Watch × Read} (λ r. IsLive r.0) w.closed _ _ (λ c. back (λ p. l.quiet (l.ended c)))
      (λ c.
        by_if {A = Watch × Read} (λ r. IsLive r.0) (ltb 0 (length w.events)) _ _
          (λ some_events.
            watch_maybe_free-IsLive (record (resumed_one w) { events = [] })
              (resumed_one-IsLive w [] pos (λ p. absurd (omega arith)) l))
          (λ nothing.
            by_if {A = Watch × Read} (λ r. IsLive r.0) w.stopped _ _
              (λ over. back (λ p. l.quiet over)) (λ running. back (λ p. absurd (ground arith)))))

wake_one-IsLive :
    (w : Watch)
    → w.woken ≡ length w.resumed
    → w.stopped ≡ false
    → w.closed ≡ false
    → w.freed ≡ false
    → IsLive (wake_one w)
unfolding wake_one
wake_one-IsLive w counted running kept alive = by_line w.waiters refl
  where
    by_line :
        (line : List ℕ)
        → w.waiters ≡ line
        → IsLive (elim line [
          | [] ↦ w
          | t ∷ rest ↦
              if w.woken == 0
              then record w { waiters = rest; resumed = w.resumed ++ (t ∷ []); woken = w.woken + 1 }
              else w
        ])
    by_line [] e = record {
      served = λ p q. absurd (ground arith);
      quiet = λ f. absurd (cc);
      counted = counted;
      ended = λ f. absurd (cc);
      last = λ f. absurd (cc);
    }
    by_line (t ∷ rest) e =
        by_if IsLive (w.woken == 0) _ _ (λ idle. woken_one rest t) (λ busy. waiting busy)
      where
        woken_one :
            (rest : List ℕ) (t : ℕ)
            → IsLive
                (record w { waiters = rest; resumed = w.resumed ++ (t ∷ []); woken = w.woken + 1 })
        woken_one rest t = record {
          served = λ p q. omega arith;
          quiet = λ f. absurd (cc);
          counted = omega (arith, counted, length-append (w.resumed) (t ∷ []));
          ended = λ f. absurd (cc);
          last = λ f. absurd (cc);
        }

        waiting : (w.woken == 0) ≡ false → IsLive w
        waiting busy = record {
          served = λ p q. ground arith;
          quiet = λ f. absurd (cc);
          counted = counted;
          ended = λ f. absurd (cc);
          last = λ f. absurd (cc);
        }

-- The part of a completion behind the batch.
after_batch-IsLive :
    (w : Watch)
    → w.woken ≡ length w.resumed
    → w.closed ≡ false
    → w.freed ≡ false
    → IsLive (if w.stopped then wake_all w else (if ltb 0 (length w.events) then wake_one w else w))
after_batch-IsLive w counted kept alive =
    by_if IsLive w.stopped _ _ (λ over. wake_all-IsLive w counted (λ c. over) alive)
      (λ running.
        by_if IsLive (ltb 0 (length w.events)) _ _
          (λ some_events. wake_one-IsLive w counted running kept alive)
          (λ nothing.
            empty-IsLive w (ground arith) (λ f. absurd (cc)) counted (λ f. absurd (cc))
              (λ f. absurd (cc))))

post_read-same :
    (post : Option ℕ) (w : Watch)
    → ((post_read post w).woken ≡ w.woken)
      × ((post_read post w).resumed ≡ w.resumed)
      × ((post_read post w).closed ≡ w.closed)
      × ((post_read post w).freed ≡ w.freed)
unfolding post_read
post_read-same none w = (refl, refl, refl, refl)
post_read-same (some error) w = (refl, refl, refl, refl)

on_io-IsLive :
    (alloc : ℕ → Bool) (to_utf8 : Bytes → Option Bytes) (buffer : Bytes) (error : ℕ)
    (post : Option ℕ) (w : Watch)
    → w.io ≡ true
    → IsLive w
    → IsLive (on_io alloc to_utf8 buffer error post w)
unfolding on_io
on_io-IsLive alloc to_utf8 buffer error post w e l =
    let free = not_freed w l (inr e) in
    let done_io = record w { io = false } in
    let parsed = parse_batch alloc to_utf8 done_io buffer in
    let k = parse_batch-Kept alloc to_utf8 done_io buffer in
    let (woken, resumed, closed, freed) = post_read-same post parsed in
    by_if IsLive w.closed _ _
      (λ c.
        watch_maybe_free-IsLive (record done_io { stopped = true })
          (ended-IsLive w (l.quiet (l.ended c)) l free))
      (λ c.
        by_if IsLive (error == 0) _ _
          (λ ok.
            after_batch-IsLive (post_read post parsed)
              (woken ∙ k.woken ∙ l.counted ∙ ap length (sym (resumed ∙ k.resumed)))
              (closed ∙ k.closed ∙ c) (freed ∙ k.freed ∙ free))
          (λ bad.
            wake_all-IsLive (record done_io { error = error; stopped = true }) l.counted (λ s. refl)
              free))
  where
    ended-IsLive :
        (w : Watch)
        → length w.waiters ≡ 0
        → IsLive w
        → w.freed ≡ false
        → IsLive (record w { io = false; stopped = true })
    ended-IsLive w bare l free = record {
      served = λ p q. absurd (omega arith);
      quiet = λ s. bare;
      counted = l.counted;
      ended = λ s. refl;
      last = λ f. absurd (cc);
    }

Step-IsLive :
    (alloc : ℕ → Bool) (to_utf8 : Bytes → Option Bytes) (w w' : Watch)
    → Step alloc to_utf8 w w'
    → IsLive w
    → IsLive w'
Step-IsLive alloc to_utf8 _ _ (io_step w buffer error post e) l =
    on_io-IsLive alloc to_utf8 buffer error post w e l
Step-IsLive alloc to_utf8 _ _ (push_step w p) l = read_push-IsLive w p l
Step-IsLive alloc to_utf8 _ _ (timeout_step w t p) l = read_timeout-IsLive w t l
Step-IsLive alloc to_utf8 _ _ (read_step w t e) l = watch_read-IsLive w t e l
Step-IsLive alloc to_utf8 _ _ (release_step w e) l = watch_release-IsLive w e l

-- In every state that a watch reaches, whatever order completions, readers, timeouts and the end
-- come in: no reader is left waiting beside queued events unless another one is on its way to them,
-- none waits for a watch that has stopped, and a freed watch is closed, with no read and no reader.
pub Run-IsLive :
    (alloc : ℕ → Bool) (to_utf8 : Bytes → Option Bytes) (raw : Bool) (w : Watch)
    → Run alloc to_utf8 raw w
    → IsLive w
Run-IsLive alloc to_utf8 raw _ start = record {
  served = λ p q. absurd (omega arith);
  quiet = λ e. refl;
  counted = refl;
  ended = λ e. absurd (cc);
  last = λ e. absurd (cc);
}
Run-IsLive alloc to_utf8 raw _ (next w w' run step) =
    Step-IsLive alloc to_utf8 w w' step (Run-IsLive alloc to_utf8 raw w run)

no-Step :
    (alloc : ℕ → Bool) (to_utf8 : Bytes → Option Bytes) (w w' : Watch)
    → IsLive w
    → w.freed ≡ true
    → ¬ (Step alloc to_utf8 w w')
no-Step alloc to_utf8 _ _ l f (io_step w buffer error post e) = ground (arith, l.last f)
no-Step alloc to_utf8 _ _ l f (push_step w p) = ground (arith, l.last f, l.counted)
no-Step alloc to_utf8 _ _ l f (timeout_step w t p) = ground (arith, l.last f, l.ended, l.quiet)
no-Step alloc to_utf8 _ _ l f (read_step w t e) = ground (arith, l.last f)
no-Step alloc to_utf8 _ _ l f (release_step w e) = ground (arith, l.last f)

-- A watch is never used after it is freed: no step is left to it.
pub Run-freed :
    (alloc : ℕ → Bool) (to_utf8 : Bytes → Option Bytes) (raw : Bool) (w w' : Watch)
    → Run alloc to_utf8 raw w
    → w.freed ≡ true
    → ¬ (Step alloc to_utf8 w w')
Run-freed alloc to_utf8 raw w w' run f =
    no-Step alloc to_utf8 w w' (Run-IsLive alloc to_utf8 raw w run) f
