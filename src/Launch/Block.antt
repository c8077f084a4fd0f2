-- ===== src/Launch/Block.antt =====
-- `ku_env_block` of src/launch.c: the environment of a child. An environment string is its units without the NUL.
pub mod Reading
pub mod Items
pub mod Assigned
pub mod Contents
use kuu.Prelude.{
  ℕ, zero, suc, ◌+◌, ◌*◌, Bool, true, false, not, ◌||◌, List, [], ◌∷◌, ◌++◌, Option, some, none,
  map, ◌==◌, if◌then◌else◌, Bytes, contains, length,
}
use kuu.Prelude.Int.{ℤ, pos, negsuc}
use kuu.Prelude.Results.{Result, failed, done}

-- What CompareStringOrdinal answers.
pub data Cstr : Type 0 where
  cstr_less_than : Cstr
  cstr_equal : Cstr
  cstr_greater_than : Cstr

-- `env_item`: the first units of the text, as many as `name_length` says, and the text.
pub record Item : Type 0 where
  pub name : List ℕ
  pub text : List ℕ

-- What Windows and the C library do: the conversion of names and values, the strings of this process,
-- unless they cannot be read, CompareStringOrdinal without case, and qsort.
pub record System : Type 0 where
  pub alloc : ℕ → Bool
  pub utf8_to_wide : Bytes → Option (List ℕ)
  pub inherited : Option (List (List ℕ))
  pub compare : List ℕ → List ℕ → Cstr
  pub qsort : (Item → Item → ℤ) → List Item → List Item

pub data EnvError : Type 0 where
  bad_name : EnvError
  bad_encoding : EnvError
  duplicate : EnvError
  out_of_memory : EnvError
  unreadable : EnvError

-- A variable of the caller; without a value it is removed.
abbrev pub Variable : Type 0
Variable = Bytes × Option Bytes

-- The same with its name converted.
abbrev pub Named : Type 0
Named = List ℕ × Option Bytes

unfoldable pub up_to_equals : List ℕ → List ℕ
up_to_equals [] = []
up_to_equals (c ∷ rest) = if c == 61 then [] else c ∷ up_to_equals rest

-- `env_name_length`: that many units of the entry. A first equals sign belongs to the name.
unfoldable pub name_of : List ℕ → List ℕ
name_of [] = []
name_of (c ∷ rest) = c ∷ up_to_equals rest

module _ (sys : System) where
  unfoldable pub env_compare : Item → Item → ℤ
  env_compare x y = elim (sys.compare x.name y.name) [
    | cstr_less_than ↦ negsuc 0
    | cstr_equal ↦ pos 0
    | cstr_greater_than ↦ pos 1
  ]

  -- `env_same_name`
  unfoldable pub same_name : List ℕ → List ℕ → Bool
  same_name a b = elim (sys.compare a b) [
    | cstr_less_than ↦ false
    | cstr_equal ↦ true
    | cstr_greater_than ↦ false
  ]

  unfoldable pub is_named : List Named → List ℕ → Bool
  is_named [] name = false
  is_named ((known, value) ∷ named) name = same_name name known || is_named named name

  -- The loop on the names; `earlier` are those before.
  unfoldable pub convert_names : List Named → List Variable → Result EnvError (List Named)
  convert_names earlier [] = done earlier
  convert_names earlier ((name, value) ∷ variables) =
      if length name == 0 || contains name 61
      then failed bad_name
      else elim (sys.utf8_to_wide name) [
        | none ↦ failed bad_encoding
        | some wide ↦
            if is_named earlier wide
            then failed duplicate
            else convert_names (earlier ++ (wide, value) ∷ []) variables
      ]

  -- The inherited entries that the caller neither overrides nor removes.
  unfoldable pub kept_entries : List Named → List (List ℕ) → List Item
  kept_entries named [] = []
  kept_entries named (entry ∷ inherited) =
      if is_named named (name_of entry)
      then kept_entries named inherited
      else record { name = name_of entry; text = entry } ∷ kept_entries named inherited

  unfoldable pub prepend_entry : Item → Result EnvError (List Item) → Result EnvError (List Item)
  prepend_entry entry (failed e) = failed e
  prepend_entry entry (done entries) = done (entry ∷ entries)

  -- The caller's entries, as NAME=VALUE.
  unfoldable pub own_entries : List Named → Result EnvError (List Item)
  own_entries [] = done []
  own_entries ((name, none) ∷ named) = own_entries named
  own_entries ((name, some value) ∷ named) = elim (sys.utf8_to_wide value) [
    | none ↦ failed bad_encoding
    | some wide ↦
        let entry = name ++ 61 ∷ wide in
        if sys.alloc ((length entry + 1) * 2)
        then prepend_entry (record { name = name; text = entry }) (own_entries named)
        else failed out_of_memory
  ]

  -- Every entry with its NUL, and a NUL.
  unfoldable pub write_block : List (List ℕ) → List ℕ
  write_block [] = 0 ∷ []
  write_block (entry ∷ entries) = entry ++ 0 ∷ write_block entries

  unfoldable pub finish_block : List Item → Result EnvError (List ℕ)
  finish_block items =
      let block = write_block (map (λ i. i.text) (sys.qsort env_compare items)) in
      if sys.alloc (length block * 2) then done block else failed out_of_memory

  -- Behind the conversion of the names.
  unfoldable pub env_items : List Named → Result EnvError (List Item)
  env_items named = elim (sys.inherited) [
    | none ↦ failed unreadable
    | some inherited ↦
        if sys.alloc ((length inherited + length named + 1) * 32)
        then elim (own_entries named) [
          | failed e ↦ failed e
          | done own ↦ done (kept_entries named inherited ++ own)
        ]
        else failed out_of_memory
  ]

  unfoldable pub env_block : List Variable → Result EnvError (List ℕ)
  env_block variables =
      if not (sys.alloc ((if length variables == 0 then 1 else length variables) * 8))
      then failed out_of_memory
      else elim (convert_names [] variables) [
        | failed e ↦ failed e
        | done named ↦ elim (env_items named) [
          | failed e ↦ failed e
          | done items ↦ finish_block items
        ]
      ]
