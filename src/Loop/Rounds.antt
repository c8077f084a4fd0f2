-- ===== src/Loop/Rounds.antt =====
-- One round of the pump of src/loop.c keeps every driver in one place.
use kuu.Prelude.{
  ℕ, zero, suc, ◌+◌, ◌≡◌, refl, subst, Bool, true, false, List, [], ◌∷◌, Option, none, some, ◌==◌,
  ◌&&◌, ◌||◌, ltb, leb, if◌then◌else◌, arith, by_if,
}
use kuu.Timers.{key, update, timer_cancel}
use kuu.Loop.{
  Status, ok, errored, Driver, Loop, Fire, of_waiter, of_owner, waiter_timer_fire, io_free,
  loop_received,
}
use kuu.Loop.Pump.{
  Outcome, yielded, returned, threw, Packet, unsourced, of_job, of_thread, of_request, World,
  finish, after_resume, resume_driver, drain_ready, fire_first, fire_loop, fire_due_timers,
  dispatch, dispatch_all, has_ready, take_packets, wait_packets, pump_once,
}
use kuu.Loop.Places.{IsSane, place, Sane, moved, dequeued}
use kuu.Loop.Places.Changes.{finished}
use kuu.Loop.Steps.{waiter_timer_fire-Sane}

-- What runs behind a coroutine: it does not if it has parked.
abbrev pub left_running : Outcome → Bool → ℕ → List ℕ → List ℕ
left_running yielded true d run = run
left_running yielded false d run = d ∷ run
left_running (returned n) parked d run = d ∷ run
left_running threw parked d run = d ∷ run

-- There is memory, and what runs outside the loop uses it by its operations alone, which keep every
-- driver in one place: a coroutine that yields as parked is parked, and runs until it comes back else.
pub record IsFair (W : World) : Type 0 where
  pub granted : W.memory ≡ true
  pub resumes :
      (run : List ℕ) (d nargs : ℕ) (l : Loop)
      → Sane (d ∷ run) l
      → l.current ≡ some d
      → l.parked ≡ false
      → Sane
          (left_running (W.resume d nargs l).1 (W.resume d nargs l).0.parked d run)
          (W.resume d nargs l).0
  pub finishes : (run : List ℕ) (d n : ℕ) (l : Loop) → Sane run l → Sane run (W.on_finish d n l)
  pub jobs : (run : List ℕ) (src : ℕ) (l : Loop) → Sane run l → Sane run (W.on_job src l)
  pub posts : (run : List ℕ) (src : ℕ) (l : Loop) → Sane run l → Sane run (W.on_posted src l)
  pub expires : (run : List ℕ) (t : ℕ) (l : Loop) → Sane run l → Sane run (W.on_timer t l)
  pub ios : (run : List ℕ) (src i : ℕ) (l : Loop) → Sane run l → Sane run (W.on_io src i l)

-- Behind drain_ready.
abbrev Drained : List ℕ → Option Loop → Type 0
Drained run none = Unit
Drained run (some l) = Sane run l

-- Nothing is ready, no timer is armed, and no packet is to come.
abbrev pub AtRest : Loop → Type 0
AtRest l = (l.ready ≡ []) × (l.timers.len ≡ 0) × (l.pending ≡ 0)

abbrev pub Pumped : List ℕ → Loop × Bool → Type 0
Pumped run (l, true) = Sane run l
Pumped run (l, false) = Sane run l × AtRest l

abbrev pub PumpedOnce : List ℕ → Option (Loop × Bool) → Type 0
PumpedOnce run none = Unit
PumpedOnce run (some r) = Pumped run r

module _ (W : World) (law : IsFair W) (run : List ℕ) where
  finish-Sane :
      (l : Loop) (d : ℕ) (status : Status) (n : ℕ)
      → Sane (d ∷ run) l
      → Sane run (finish W l d status n)
  unfolding finish
  finish-Sane l d status n s =
      let over : Driver = record (l.driver d) { finished = true; status = status } in
      law.finishes run d n (record l { driver = update l.driver d over })
        (finished (place run l.ready) l.driver l.waiter d over refl (
          moved (place (d ∷ run) l.ready) (λ x. (if d == x then 1 else 0) + place run l.ready x)
            l.driver l.waiter (λ x. omega arith) s))

  after_resume-Sane :
      (l : Loop) (d : ℕ) (parked : Bool) (outcome : Outcome)
      → Sane (left_running outcome parked d run) l
      → Sane run (after_resume W l d parked outcome)
  unfolding after_resume
  after_resume-Sane l d true yielded s = s
  after_resume-Sane l d false yielded s = finish-Sane l d errored 1 s
  after_resume-Sane l d parked (returned n) s = finish-Sane l d ok n s
  after_resume-Sane l d parked threw s = finish-Sane l d errored 1 s

  resume_driver-Sane :
      (l : Loop) (d nargs : ℕ) → Sane (d ∷ run) l → Sane run (resume_driver W l d nargs)
  unfolding resume_driver
  resume_driver-Sane l d nargs s =
      let begun : Loop = record l { current = some d; parked = false } in
      let r = W.resume d nargs begun in
      after_resume-Sane (record r.0 { current = l.current; parked = l.parked }) d r.0.parked r.1
        (law.resumes run d nargs begun s refl refl)

  drain_ready-Drained : (fuel : ℕ) (l : Loop) → Sane run l → Drained run (drain_ready W fuel l)
  unfolding drain_ready
  drain_ready-Drained zero l s = tt
  drain_ready-Drained (suc fuel) l s = by_queue (l.ready) refl (drain_ready-Drained fuel)
    where
      by_queue :
          (queue : List (ℕ × ℕ))
          → l.ready ≡ queue
          → ((m : Loop) → Sane run m → Drained run (drain_ready W fuel m))
          → Drained run (elim queue [
            | [] ↦ some l
            | (d, nargs) ∷ rest ↦
                drain_ready W fuel (resume_driver W (record l { ready = rest }) d nargs)
          ])
      by_queue [] e later = s
      by_queue ((d, nargs) ∷ rest) e later =
          let m : Loop = record l { ready = rest } in
          later (resume_driver W m d nargs) (
            resume_driver-Sane m d nargs (
              dequeued d nargs run rest l.driver l.waiter
                (subst (λ q. IsSane (place run q) l.driver l.waiter) e s)))

  fire_first-Sane : (l : Loop) → Sane run l → Sane run (fire_first W l)
  unfolding fire_first
  fire_first-Sane l s = by_fire (l.fire (l.timers.slot 0))
    where
      m : Loop
      m = record l { timers = timer_cancel l.timers (l.timers.slot 0) }

      by_fire :
          (f : Fire)
          → Sane run (elim f as (λ x. Loop) [
            | of_waiter ↦ waiter_timer_fire W.memory m (l.timers.slot 0)
            | of_owner ↦ W.on_timer (l.timers.slot 0) m
          ])
      by_fire of_waiter = rw law.granted (waiter_timer_fire-Sane run m (l.timers.slot 0) s)
      by_fire of_owner = law.expires run (l.timers.slot 0) m s

  fire_loop-Sane : (fuel now : ℕ) (l : Loop) → Sane run l → Sane run (fire_loop W fuel now l)
  unfolding fire_loop
  fire_loop-Sane zero now l s = s
  fire_loop-Sane (suc fuel) now l s =
      by_due (ltb 0 l.timers.len && leb (key l.timers 0) now)
        (fire_loop-Sane fuel now (fire_first W l) (fire_first-Sane l s))
    where
      by_due :
          (b : Bool)
          → Sane run (fire_loop W fuel now (fire_first W l))
          → Sane run (elim b [ false ↦ l | true ↦ fire_loop W fuel now (fire_first W l) ])
      by_due false later = s
      by_due true later = later

  fire_due_timers-Sane : (l : Loop) → Sane run l → Sane run (fire_due_timers W l)
  unfolding fire_due_timers
  fire_due_timers-Sane l s = fire_loop-Sane (l.timers.len + 1) (W.now l) l s

  dispatch-Sane : (l : Loop) (packet : Packet) → Sane run l → Sane run (dispatch W l packet)
  unfolding dispatch
  dispatch-Sane l unsourced s = s
  dispatch-Sane l (of_job src) s = law.jobs run src l s
  dispatch-Sane l (of_thread src) s = law.posts run src l s
  dispatch-Sane l (of_request none) s = s
  dispatch-Sane l (of_request (some i)) s = by_owner ((l.request i).src)
    where
      by_owner :
          (o : Option ℕ)
          → Sane run (elim o as (λ x. Loop) [
            | none ↦ io_free (loop_received l) i
            | some src ↦ W.on_io src i (loop_received l)
          ])
      by_owner none = unfold io_free loop_received in s
      by_owner (some src) = law.ios run src i (loop_received l) (unfold loop_received in s)

  dispatch_all-Sane :
      (packets : List Packet) (l : Loop) → Sane run l → Sane run (dispatch_all W l packets)
  unfolding dispatch_all
  dispatch_all-Sane [] l s = s
  dispatch_all-Sane (packet ∷ packets) l s =
      dispatch_all-Sane packets (dispatch W l packet) (dispatch-Sane l packet s)

  take_packets-Sane : (wait : Option ℕ) (l : Loop) → Sane run l → Sane run (take_packets W wait l)
  unfolding take_packets
  take_packets-Sane wait l s =
      fire_due_timers-Sane (dispatch_all W l (W.packets wait l))
        (dispatch_all-Sane (W.packets wait l) l s)

  nothing_ready : (l : Loop) → has_ready l ≡ false → l.ready ≡ []
  unfolding has_ready
  nothing_ready l e = by_queue (l.ready) e
    where
      by_queue :
          (queue : List (ℕ × ℕ))
          → (elim queue as (λ x. Bool) [ [] ↦ false | e ∷ rest ↦ true ]) ≡ false
          → queue ≡ []
      by_queue [] e = refl
      by_queue (x ∷ queue) e = absurd (ground (arith, e))

  wait_packets-Pumped :
      (stop : Loop → Bool) (l : Loop) → Sane run l → Pumped run (wait_packets W stop l)
  unfolding wait_packets
  wait_packets-Pumped stop l s =
      by_if {A = Loop × Bool} (Pumped run) (has_ready l || stop l) _ _ (λ e. s)
        (λ e.
          by_if {A = Loop × Bool} (Pumped run) (ltb 0 l.timers.len) _ _
            (λ f. take_packets-Sane _ l s)
            (λ f.
              by_if {A = Loop × Bool} (Pumped run) (ltb 0 l.pending) _ _
                (λ g. take_packets-Sane none l s)
                (λ g. (
                  s,
                  (nothing_ready l (ground (arith, e)), ground (arith, f), ground (arith, g)),
                ))))

  pub pump_once-PumpedOnce :
      (fuel : ℕ) (stop : Loop → Bool) (l : Loop)
      → Sane run l
      → PumpedOnce run (pump_once W fuel stop l)
  unfolding pump_once
  pump_once-PumpedOnce fuel stop l s =
      by_drain (drain_ready W fuel l) (drain_ready-Drained fuel l s)
    where
      by_drain :
          (o : Option Loop)
          → Drained run o
          → PumpedOnce run
              (elim o [ none ↦ none | some m ↦ some (wait_packets W stop (fire_due_timers W m)) ])
      by_drain none h = tt
      by_drain (some m) h =
          wait_packets-Pumped stop (fire_due_timers W m) (fire_due_timers-Sane m h)
