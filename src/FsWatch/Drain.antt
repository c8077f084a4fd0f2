-- ===== src/FsWatch/Drain.antt =====
-- `rank` and `drain_events` of src/fs_watch.c.
use kuu.Prelude.{
  ℕ, ◌≡◌, refl, sym, ◌∙◌, false, List, [], ◌∷◌, some, none, ltb, if◌then◌else◌, Bytes, equal,
  equal_iff, arith, Bool-cases, inl, inr,
}
use kuu.FsWatch.{Action, added, removed, modified, renamed, overflow, WatchEvent, Watch}

unfoldable pub rank : Action → ℕ
rank overflow = 5
rank removed = 4
rank added = 3
rank renamed = 2
rank modified = 1

-- A later event on a path goes into the earlier one.
unfoldable pub merged : WatchEvent → WatchEvent → WatchEvent
merged earlier e = record earlier {
  action = if ltb (rank (earlier.action)) (rank (e.action)) then e.action else earlier.action;
  old_path = elim (earlier.old_path) [ some from ↦ some from | none ↦ e.old_path ];
}

-- The inner loop, over the events that are kept; the others have NULL for their path there.
unfoldable pub merge_into : List WatchEvent → WatchEvent → List WatchEvent
merge_into [] e = e ∷ []
merge_into (earlier ∷ kept) e =
    let rest = merge_into kept e in
    if equal earlier.path e.path then merged earlier e ∷ kept else earlier ∷ rest

unfoldable pub coalesce : List WatchEvent → List WatchEvent → List WatchEvent
coalesce kept [] = kept
coalesce kept (e ∷ events) = coalesce (merge_into kept e) events

unfoldable pub drain_events : Watch → List WatchEvent × Watch
drain_events w = (if w.raw then w.events else coalesce [] w.events, record w { events = [] })

unfoldable pub higher : ℕ → ℕ → ℕ
higher a b = if ltb a b then b else a

-- The highest rank among the events on a path, 0 for none.
unfoldable pub top_rank : Bytes → List WatchEvent → ℕ
top_rank path [] = 0
top_rank path (e ∷ events) =
    higher (if equal e.path path then rank (e.action) else 0) (top_rank path events)

-- No two events are on the same path.
abbrev pub AreDistinct : List WatchEvent → Type 0
AreDistinct [] = Unit
AreDistinct (e ∷ events) = (top_rank e.path events ≡ 0) × AreDistinct events

abbrev own_rank : Bytes → WatchEvent → ℕ
own_rank path e = if equal e.path path then rank (e.action) else 0

top_rank-merged :
    (path : Bytes) (earlier e : WatchEvent) (kept : List WatchEvent)
    → earlier.path ≡ e.path
    → top_rank path (merged earlier e ∷ kept)
      ≡ higher (top_rank path (earlier ∷ kept)) (own_rank path e)
unfolding top_rank merged higher
top_rank-merged path earlier e kept same = rw same (ground arith)

merge_into-cons :
    (earlier : WatchEvent) (kept : List WatchEvent) (e : WatchEvent)
    → merge_into (earlier ∷ kept) e
      ≡ (if equal earlier.path e.path then merged earlier e ∷ kept else earlier ∷ merge_into kept e)
unfolding merge_into
merge_into-cons earlier kept e = refl

top_rank-cons :
    (path : Bytes) (e : WatchEvent) (events : List WatchEvent)
    → top_rank path (e ∷ events) ≡ higher (own_rank path e) (top_rank path events)
unfolding top_rank
top_rank-cons path e events = refl

higher_assoc : (a b c : ℕ) → higher a (higher b c) ≡ higher (higher a b) c
unfolding higher
higher_assoc a b c = ground arith

top_rank-merge_into :
    (path : Bytes) (kept : List WatchEvent) (e : WatchEvent)
    → top_rank path (merge_into kept e) ≡ higher (top_rank path kept) (own_rank path e)
top_rank-merge_into path [] e = unfold top_rank merge_into higher in ground arith
top_rank-merge_into path (earlier ∷ kept) e = elim (Bool-cases (equal earlier.path e.path)) [
  | inl same ↦
      rw (merge_into-cons earlier kept e, same)
        (top_rank-merged path earlier e kept (ground (equal_iff earlier.path e.path, arith)))
  | inr other ↦
      rw
        (
          merge_into-cons earlier kept e,
          other,
          top_rank-cons path earlier (merge_into kept e),
          top_rank-cons path earlier kept,
          top_rank-merge_into path kept e,
        )
        (higher_assoc (own_rank path earlier) (top_rank path kept) (own_rank path e))
]

merge_into-AreDistinct :
    (kept : List WatchEvent) (e : WatchEvent) → AreDistinct kept → AreDistinct (merge_into kept e)
merge_into-AreDistinct [] e d = unfold merge_into top_rank in (refl, tt)
merge_into-AreDistinct (earlier ∷ kept) e (fresh, d) =
    elim (Bool-cases (equal earlier.path e.path)) [
      | inl same ↦ rw (merge_into-cons earlier kept e, same) (unfold merged in (fresh, d))
      | inr other ↦
          let apart : own_rank earlier.path e ≡ 0 =
            ground (arith, equal_iff e.path earlier.path, equal_iff earlier.path e.path) in
          rw (merge_into-cons earlier kept e, other)
            (
              top_rank-merge_into earlier.path kept e ∙ (unfold higher in rw (fresh, apart) refl),
              merge_into-AreDistinct kept e d,
            )
    ]

coalesce_lem :
    (events kept : List WatchEvent)
    → AreDistinct kept
    → AreDistinct (coalesce kept events)
      × ((path : Bytes)
          → top_rank path (coalesce kept events)
            ≡ higher (top_rank path kept) (top_rank path events))
unfolding coalesce
coalesce_lem [] kept d = (d, λ path. unfold top_rank higher in ground arith)
coalesce_lem (e ∷ events) kept d =
    let (apart, ranks) =
      coalesce_lem events (merge_into kept e) (merge_into-AreDistinct kept e d) in
    (
      apart,
      λ path.
          ranks path
          ∙ rw (top_rank-merge_into path kept e, top_rank-cons path e events)
              (sym (higher_assoc (top_rank path kept) (own_rank path e) (top_rank path events))),
    )

-- A read that is not raw gives one event for each path that had any, and none for others; its
-- action is the one of the highest rank that the path had.
pub drain_events-coalesced :
    (w : Watch)
    → w.raw ≡ false
    → AreDistinct (drain_events w).0
      × ((path : Bytes) → top_rank path (drain_events w).0 ≡ top_rank path w.events)
unfolding drain_events
drain_events-coalesced w e =
    let (apart, ranks) = coalesce_lem w.events [] tt in
    rw e (apart, λ path. ranks path ∙ (unfold top_rank higher in ground arith))
