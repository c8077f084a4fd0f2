-- ===== src/Timers.antt =====
-- src/loop.c: the timers, a binary min-heap on `due_ms`. A timer is a number, and the fields of the
-- timers are functions of it. The array is a function too: what stands at or past `len` is garbage.
-- Due times stay below 2^54 (src/values.c caps a duration), so no sum leaves int64_t.
mod Swap
mod Up
mod Down
pub mod Heap
pub mod Arming
pub mod Firing
mod Examples
use kuu.Prelude.{
  ℕ, zero, suc, ◌+◌, ◌-◌, ◌*◌, ◌/◌, ◌≤◌, ◌<◌, ◌≡◌, Bool, true, false, Option, none, some, leb, ltb,
  ◌==◌, ◌&&◌, if◌then◌else◌,
}

abbrev pub update {ℓ} : {A : Type ℓ} → (ℕ → A) → ℕ → A → ℕ → A
update f i v j = if j == i then v else f j

-- The heap's part of `ku_loop`, and `due_ms` and `index` of the timers; `none` is KU_TIMER_IDLE.
pub record Timers : Type 0 where
  pub slot : ℕ → ℕ
  pub len : ℕ
  pub cap : ℕ
  pub due : ℕ → ℕ
  pub index : ℕ → Option ℕ

abbrev pub key : Timers → ℕ → ℕ
key h i = h.due (h.slot i)

unfoldable pub heap_swap : Timers → ℕ → ℕ → Timers
heap_swap h a b =
    let slot = update (update h.slot a (h.slot b)) b (h.slot a) in
    record h { slot = slot; index = update (update h.index (slot a) (some a)) (slot b) (some b) }

abbrev pub parent : ℕ → ℕ
parent i = (i - 1) / 2

-- The loop of `heap_up`, at most `i` rounds from `i`.
unfoldable pub heap_up_loop : ℕ → Timers → ℕ → Timers
heap_up_loop zero h i = h
heap_up_loop (suc fuel) h i =
    let rise = heap_up_loop fuel (heap_swap h (parent i) i) (parent i) in
    if ltb 0 i then (if leb (key h (parent i)) (key h i) then h else rise) else h

unfoldable pub heap_up : Timers → ℕ → Timers
heap_up h i = heap_up_loop i h i

-- The child of `i` that is earlier than `i`, and the earlier one of two such; `i` if there is none.
unfoldable pub least_of : Timers → ℕ → ℕ
least_of h i =
    let left = 2 * i + 1 in
    let right = left + 1 in
    let least = if ltb left h.len && ltb (key h left) (key h i) then left else i in
    if ltb right h.len && ltb (key h right) (key h least) then right else least

-- The loop of `heap_down`, at most `len` rounds.
unfoldable pub heap_down_loop : ℕ → Timers → ℕ → Timers
heap_down_loop zero h i = h
heap_down_loop (suc fuel) h i =
    let sink = heap_down_loop fuel (heap_swap h i (least_of h i)) (least_of h i) in
    if least_of h i == i then h else sink

unfoldable pub heap_down : Timers → ℕ → Timers
heap_down h i = heap_down_loop h.len h i

-- `ku_timer_init` for timer `t`
unfoldable pub timer_init : Timers → ℕ → Timers
timer_init h t = record h { due = update h.due t 0; index = update h.index t none }

-- `ku_timer_cancel` on an armed timer, at its index `i`; the last entry takes its place.
unfoldable pub cancel_at : Timers → ℕ → ℕ → Timers
cancel_at h t i =
    let last = h.len - 1 in
    let idle = record h { index = update h.index t none; len = last } in
    let moved = record idle {
      slot = update h.slot i (h.slot last);
      index = update idle.index (h.slot last) (some i);
    } in
    if i == last then idle else heap_up (heap_down moved i) i

unfoldable pub timer_cancel : Timers → ℕ → Timers
timer_cancel h t = elim (h.index t) [ none ↦ h | some i ↦ cancel_at h t i ]

-- `ku_timer_arm` behind the growth of the array
unfoldable pub push_timer : Timers → ℕ → ℕ → Timers
push_timer h t due =
    heap_up
      (record h {
        due = update h.due t due;
        index = update h.index t (some h.len);
        slot = update h.slot h.len t;
        len = h.len + 1;
      })
      h.len

-- `ku_timer_arm` at the time `now`. `alloc` says whether realloc grants that many entries, and the
-- Boolean is `true` for the return value 0. A negative delay counts as 0.
unfoldable pub timer_arm : (ℕ → Bool) → ℕ → Timers → ℕ → ℕ → Timers × Bool
timer_arm alloc now h t delay =
    let idle = timer_cancel h t in
    let cap = if idle.cap == 0 then 16 else idle.cap * 2 in
    let grown = record idle { cap = cap } in
    if idle.len == idle.cap
    then (if alloc cap then (push_timer grown t (now + delay), true) else (idle, false))
    else (push_timer idle t (now + delay), true)

-- Every armed timer is where its index says, and nothing else is in the array.
pub record IsPlaced (h : Timers) : Type 0 where
  pub placed : (i : ℕ) → i < h.len → h.index (h.slot i) ≡ some i
  pub held : (t i : ℕ) → h.index t ≡ some i → (i < h.len) × (h.slot i ≡ t)

abbrev pub IsOrdered : Timers → Type 0
IsOrdered h = (c : ℕ) → 0 < c → c < h.len → key h (parent c) ≤ key h c

-- The bookkeeping is right, no timer is before its parent, and the array holds its entries.
pub record IsValid (h : Timers) : Type 0 where
  pub places : IsPlaced h
  pub fits : h.len ≤ h.cap
  pub ordered : IsOrdered h

unfoldable pub is_armed : Timers → ℕ → Bool
is_armed h t = elim (h.index t) [ none ↦ false | some i ↦ true ]
