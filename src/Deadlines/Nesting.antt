-- ===== src/Deadlines/Nesting.antt =====
-- The scopes of src/deadline.c as one stack for each coroutine, of which the earliest deadline counts.
use kuu.Prelude.{
  ℕ, ◌+◌, ◌≤◌, ◌<◌, ◌≡◌, refl, sym, subst, ap, ◌∙◌, Bool, true, false, List, [], ◌∷◌, Option, none,
  some, ltb, ◌==◌, if◌then◌else◌, drop, arith, by_if,
}
use kuu.Timers.{update}
use kuu.Deadlines.{
  Scope, Scopes, inherit_due, scope_enter, is_top, scope_close, deadline_current, close_innermost,
}

-- The earliest of a scope and those around it, the inner one of two that are due at once.
abbrev pub earliest : ℕ → ℕ → List (ℕ × ℕ) → ℕ × ℕ
earliest own t [] = (own, t)
earliest own t ((around, u) ∷ rest) =
    let e = earliest around u rest in if ltb e.0 own then e else (own, t)

abbrev pub current_of : List (ℕ × ℕ) → Option (ℕ × ℕ)
current_of [] = none
current_of ((own, t) ∷ rest) = some (earliest own t rest)

-- The chain of scopes from `innermost` on is the stack, of instants and tokens, newer ones before.
abbrev pub Represents : Scopes → ℕ → ℕ → Option ℕ → List (ℕ × ℕ) → Type 0
Represents s co bound innermost [] = innermost ≡ none
Represents s co bound innermost ((own, t) ∷ rest) =
    (innermost ≡ some t)
    × (t < bound)
    × ((s.scope t).active ≡ true)
    × ((s.scope t).owner ≡ co)
    × (((s.scope t).due, (s.scope t).effective) ≡ earliest own t rest)
    × Represents s co t (s.scope t).previous rest

abbrev pub IsNested : Scopes → (ℕ → List (ℕ × ℕ)) → Type 0
IsNested s stacks = (co : ℕ) → Represents s co s.next (s.top co) (stacks co)

same_number : (a b : ℕ) → (a == b) ≡ true → a ≡ b
same_number a b k = ground (arith, k)

-- Scopes that change are not in the stack.
framed :
    (s t : Scopes) (co b c : ℕ) (innermost : Option ℕ) (stack : List (ℕ × ℕ))
    → b ≤ c
    → ((u : ℕ) → u < b → (s.scope u).owner ≡ co → t.scope u ≡ s.scope u)
    → Represents s co b innermost stack
    → Represents t co c innermost stack
framed s t co b c innermost [] le same h = h
framed s t co b c innermost ((own, u) ∷ rest) le same (top, lt, on, mine, due, more) =
    let here : t.scope u ≡ s.scope u = same u lt mine in
    (
      top,
      omega (arith, lt, le),
      ap (λ (x : Scope). x.active) here ∙ on,
      ap (λ (x : Scope). x.owner) here ∙ mine,
      ap (λ (x : Scope). (x.due, x.effective)) here ∙ due,
      subst (λ (x : Scope). Represents t co u x.previous rest) (sym here)
          (framed s t co u u (s.scope u).previous rest (omega arith)
            (λ v l o. same v (omega (arith, l, lt)) o) more),
    )

deadline_current-IsNested :
    (s : Scopes) (co bound : ℕ) (stack : List (ℕ × ℕ))
    → Represents s co bound (s.top co) stack
    → deadline_current s co ≡ current_of stack
unfolding deadline_current
deadline_current-IsNested s co bound [] h =
    ap
      (λ (o : Option ℕ). elim o as (λ x. Option (ℕ × ℕ)) [
        | none ↦ none
        | some u ↦
            if (s.scope u).active then some ((s.scope u).due, (s.scope u).effective) else none
      ])
      h
deadline_current-IsNested s co bound ((own, t) ∷ rest) (top, lt, on, mine, due, more) =
    ap
      (λ (o : Option ℕ). elim o as (λ x. Option (ℕ × ℕ)) [
        | none ↦ none
        | some u ↦
            if (s.scope u).active then some ((s.scope u).due, (s.scope u).effective) else none
      ])
      top
    ∙ by_if {A = Option (ℕ × ℕ)} (λ x. x ≡ some (earliest own t rest)) (s.scope t).active _ _
        (λ e. ap (λ x. some x) due) (λ e. absurd (ground (arith, on, e)))

inherit_due-earliest :
    (s : Scopes) (co own : ℕ) (stack : List (ℕ × ℕ))
    → Represents s co s.next (s.top co) stack
    → inherit_due s (s.top co) own ≡ earliest own s.next stack
unfolding inherit_due
inherit_due-earliest s co own [] h = ap (λ o. inherit_due s o own) h
inherit_due-earliest s co own ((around, t) ∷ rest) (top, lt, on, mine, due, more) =
    ap (λ o. inherit_due s o own) top
    ∙ ap (λ (e : ℕ × ℕ). if ltb e.0 own then e else (own, s.next)) due

-- A test that two values share.
by_both {ℓ κ μ} :
    {A : Type ℓ} {B : Type κ} (P : A → B → Type μ) (b : Bool) (x y : A) (u v : B)
    → (b ≡ true → P x u)
    → (b ≡ false → P y v)
    → P (if b then x else y) (if b then u else v)
by_both P true x y u v f g = f refl
by_both P false x y u v f g = g refl

update_itself {ℓ} : {A : Type ℓ} (f : ℕ → A) (k : ℕ) (v : A) → update f k v k ≡ v
update_itself f k v =
    by_if (λ x. x ≡ v) (k == k) v (f k) (λ e. refl) (λ e. absurd (ground (arith, e)))

update_other {ℓ} : {A : Type ℓ} (f : ℕ → A) (k j : ℕ) (v : A) → (j ≡ k → ⊥) → update f k v j ≡ f j
update_other f k j v differ =
    by_if (λ x. x ≡ f j) (j == k) v (f j) (λ e. absurd (differ (same_number j k e))) (λ e. refl)

scope_enter-IsNested :
    (s : Scopes) (stacks : ℕ → List (ℕ × ℕ)) (now co ms : ℕ)
    → IsNested s stacks
    → IsNested (scope_enter now co ms s) (update stacks co ((now + ms, s.next) ∷ stacks co))
unfolding scope_enter
scope_enter-IsNested s stacks now co ms h c =
    by_both (λ o stack. Represents t c (s.next + 1) o stack) (c == co) (some s.next) (s.top c)
      ((now + ms, s.next) ∷ stacks co) (stacks c)
      (λ e.
        subst (λ x. Represents t x (s.next + 1) (some s.next) ((now + ms, s.next) ∷ stacks co))
          (sym (same_number c co e)) entered)
      (λ e.
        framed s t c s.next (s.next + 1) (s.top c) (stacks c) (omega arith) (λ u lt o. older u lt)
          (h c))
  where
    new : Scope
    new = record {
      due = (inherit_due s (s.top co) (now + ms)).0;
      active = true;
      previous = s.top co;
      effective = (inherit_due s (s.top co) (now + ms)).1;
      owner = co;
    }

    t : Scopes
    t = record {
      scope = update s.scope s.next new;
      next = s.next + 1;
      top = update s.top co (some s.next);
    }

    older : (u : ℕ) → u < s.next → t.scope u ≡ s.scope u
    older u lt = update_other s.scope s.next u new (λ e. omega (arith, e, lt))

    itself : t.scope s.next ≡ new
    itself = update_itself s.scope s.next new

    entered : Represents t co (s.next + 1) (some s.next) ((now + ms, s.next) ∷ stacks co)
    entered = (
      refl,
      omega arith,
      ap (λ (x : Scope). x.active) itself,
      ap (λ (x : Scope). x.owner) itself,
      ap (λ (x : Scope). (x.due, x.effective)) itself
          ∙ inherit_due-earliest s co (now + ms) (stacks co) (h co),
      subst (λ (x : Scope). Represents t co s.next x.previous (stacks co)) (sym itself)
          (framed s t co s.next s.next (s.top co) (stacks co) (omega arith) (λ u lt o. older u lt)
            (h co)),
    )

-- The innermost scope of a coroutine, closed.
closed : Scopes → ℕ → Scopes
closed s t = record s {
  scope = update s.scope t (record (s.scope t) { active = false });
  top = update s.top (s.scope t).owner (s.scope t).previous;
}

scope_close-top :
    (s : Scopes) (t co : ℕ)
    → s.top co ≡ some t
    → (s.scope t).active ≡ true
    → (s.scope t).owner ≡ co
    → scope_close s t ≡ closed s t
unfolding scope_close is_top closed
scope_close-top s t co top on mine =
    by_if (λ x. x ≡ closed s t) (s.scope t).active _ _
      (λ e.
        by_if
          (λ tops.
            record s {
              scope = update s.scope t (record (s.scope t) { active = false });
              top = tops;
            }
            ≡ closed s t)
          (is_top s t) _ _ (λ f. refl)
          (λ f. absurd (topmost (s.top (s.scope t).owner) (ap (λ c. s.top c) mine ∙ top) f)))
      (λ e. absurd (ground (arith, e, on)))
  where
    topmost :
        (o : Option ℕ)
        → o ≡ some t
        → (elim o as (λ x. Bool) [ none ↦ false | some u ↦ u == t ]) ≡ false
        → ⊥
    topmost none e f = absurd (ground (arith, e))
    topmost (some u) e f = absurd (ground (arith, e, f))

closed-IsNested :
    (s : Scopes) (stacks : ℕ → List (ℕ × ℕ)) (co t : ℕ) (rest : List (ℕ × ℕ))
    → IsNested s stacks
    → (s.scope t).owner ≡ co
    → t < s.next
    → Represents s co t (s.scope t).previous rest
    → IsNested (closed s t) (update stacks co rest)
unfolding closed
closed-IsNested s stacks co t rest h mine lt more c =
    subst
      (λ x.
        Represents (closed s t) c s.next (update s.top x (s.scope t).previous c)
          (update stacks co rest c))
      (sym mine)
      (by_both (λ o stack. Represents (closed s t) c s.next o stack) (c == co) (s.scope t).previous
        (s.top c) rest (stacks c)
        (λ e.
          subst (λ x. Represents (closed s t) x s.next (s.scope t).previous rest)
            (sym (same_number c co e))
            (framed s (closed s t) co t s.next (s.scope t).previous rest (omega (arith, lt))
              (λ u less o. untouched u (λ k. omega (arith, k, less))) more))
        (λ e.
          framed s (closed s t) c s.next s.next (s.top c) (stacks c) (omega arith)
            (λ u less o. untouched u (λ k.
              let at : c ≡ co = sym o ∙ ap (λ x. (s.scope x).owner) k ∙ mine in
              absurd (ground (arith, at, e))))
            (h c)))
  where
    untouched :
        (u : ℕ)
        → (u ≡ t → ⊥)
        → update s.scope t (record (s.scope t) { active = false }) u ≡ s.scope u
    untouched u differ = update_other s.scope t u (record (s.scope t) { active = false }) differ

close_innermost-IsNested :
    (s : Scopes) (stacks : ℕ → List (ℕ × ℕ)) (co : ℕ)
    → IsNested s stacks
    → IsNested (close_innermost s co) (update stacks co (drop 1 (stacks co)))
unfolding close_innermost
close_innermost-IsNested s stacks co h = by_stack (stacks co) refl (h co)
  where
    by_stack :
        (stack : List (ℕ × ℕ))
        → stacks co ≡ stack
        → Represents s co s.next (s.top co) stack
        → IsNested
            (elim (s.top co) as (λ x. Scopes) [ none ↦ s | some t ↦ scope_close s t ])
            (update stacks co (drop 1 stack))
    by_stack [] e top =
        subst
          (λ o.
            IsNested (elim o as (λ x. Scopes) [ none ↦ s | some t ↦ scope_close s t ])
              (update stacks co []))
          (sym top)
          (λ c.
            by_if (λ stack. Represents s c s.next (s.top c) stack) (c == co) [] (stacks c)
              (λ k. subst (λ x. Represents s x s.next (s.top x) []) (sym (same_number c co k)) top)
              (λ k. h c))
    by_stack ((own, t) ∷ rest) e (top, lt, on, mine, due, more) =
        subst
          (λ o.
            IsNested (elim o as (λ x. Scopes) [ none ↦ s | some t ↦ scope_close s t ])
              (update stacks co rest))
          (sym top)
          (subst (λ x. IsNested x (update stacks co rest))
            (sym (scope_close-top s t co top on mine))
            (closed-IsNested s stacks co t rest h mine lt more))

-- Where every coroutine's scopes are a stack, the deadline that counts is the earliest on it, entering
-- a scope pushes it on the stack of its coroutine, and closing the innermost one pops it, both with the
-- stacks of the other coroutines as they were.
pub stacks-IsNested :
    (s : Scopes) (stacks : ℕ → List (ℕ × ℕ)) (now co ms : ℕ)
    → IsNested s stacks
    → (deadline_current s co ≡ current_of (stacks co))
      × IsNested (scope_enter now co ms s) (update stacks co ((now + ms, s.next) ∷ stacks co))
      × IsNested (close_innermost s co) (update stacks co (drop 1 (stacks co)))
stacks-IsNested s stacks now co ms h = (
  deadline_current-IsNested s co s.next (stacks co) (h co),
  scope_enter-IsNested s stacks now co ms h,
  close_innermost-IsNested s stacks co h,
)
