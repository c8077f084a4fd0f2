-- ===== src/Cmdline/Buffer.antt =====
-- src/cmdline.c: the growable byte buffer `sb_t`. `alloc n` says whether malloc or realloc grants
-- `n` bytes; the contents of a failed buffer are kept, as realloc keeps the old block.
use kuu.Prelude.{
  ℕ, zero, suc, ◌+◌, ◌-◌, ◌*◌, ◌/◌, ◌^◌, Bool, true, false, Option, none, some, [], ◌∷◌, ◌++◌, ltb,
  if◌then◌else◌, length, Bytes,
}

-- SIZE_MAX on the 64-bit target.
abbrev pub size_max : ℕ
size_max = 2 ^ 64 - 1

pub record Sb : Type 0 where
  pub text : Bytes
  pub cap : ℕ
  pub failed : Bool

-- The loop that doubles `cap`. Its fuel is a bound on the doublings.
unfoldable pub grow_cap : ℕ → ℕ → ℕ → ℕ
grow_cap zero cap need = cap
grow_cap (suc fuel) cap need =
    let doubled = grow_cap fuel (cap * 2) need in
    if ltb cap need then (if ltb (size_max / 2) cap then need else doubled) else cap

-- `memcpy` behind the text, where `sb_ensure` made room for it.
unfoldable pub put : Sb × Bool → Bytes → Sb
put (b, true) s = record b { text = b.text ++ s }
put (b, false) s = b

module _ (alloc : ℕ → Bool) where
  -- `none` for the return value -1, after which no caller touches the buffer.
  unfoldable pub sb_init : Option Sb
  sb_init = if alloc 64 then some (record { text = []; cap = 64; failed = false }) else none

  -- The Boolean is `true` for the return value 0.
  unfoldable pub sb_ensure : Sb → ℕ → Sb × Bool
  sb_ensure b extra =
      let need = length b.text + extra + 1 in
      let cap = grow_cap 64 b.cap need in
      if b.failed
      then (b, false)
      else if ltb (size_max - length b.text - 1) extra
      then (record b { failed = true }, false)
      else if ltb b.cap need
      then (if alloc cap
          then (record b { cap = cap }, true)
          else (record b { failed = true }, false))
      else (b, true)

  unfoldable pub sb_puts : Sb → Bytes → Sb
  unfolding put
  sb_puts b s = put (sb_ensure b (length s)) s

  unfoldable pub sb_putc : Sb → ℕ → Sb
  unfolding put
  sb_putc b c = put (sb_ensure b 1) (c ∷ [])

  unfoldable pub xstrdup : Bytes → Option Bytes
  xstrdup s = if alloc (length s + 1) then some s else none
