-- ===== src/Launch/Block/Contents.antt =====
-- What the block of `ku_env_block` of src/launch.c says.
use kuu.Prelude.{ℕ, ◌≡◌, ◌⊎◌, List, some, none, map, length, All, Any}
use kuu.Prelude.Results.{Result, failed, done}
use kuu.Launch.Block.{System, Item, EnvError, Variable}
use kuu.Launch.Block.Reading.{IsString, read_block}
use kuu.Launch.Block.Items.{IsNameOf, IsNamedBy, IsInherited, IsAssigned}
use kuu.Launch.Block.Assigned.{IsSorted, IsOrdinary, Assigned}

-- An item is an inherited string that no variable of the caller names, or NAME=VALUE of a variable.
abbrev pub IsEntry : System → List Variable → List (List ℕ) → Item → Type 0
IsEntry sys variables inherited i =
    Any (IsInherited sys variables i) inherited ⊎ Any (IsAssigned sys i) variables

-- An inherited string is named by a variable of the caller, or is an item.
abbrev pub IsKept : System → List Variable → List Item → List ℕ → Type 0
IsKept sys variables items entry =
    (name : List ℕ) × IsNameOf entry name
    × (Any (IsNamedBy sys name) variables ⊎ Any (λ i. IsInherited sys variables i entry) items)

-- A variable has no value, or NAME=VALUE is an item.
abbrev pub IsListed : System → List Item → Variable → Type 0
IsListed sys items v = (v.1 ≡ none) ⊎ Any (λ i. IsAssigned sys i v) items

-- What a child reads in a block: the inherited strings that no variable of the caller names and NAME=VALUE
-- of its variables that have a value, all of them and nothing else, sorted by their names.
pub record Says (sys : System) (variables : List Variable) (block : List ℕ) : Type 0 where
  pub inherited : List (List ℕ)
  pub items : List Item
  pub inherits : sys.inherited ≡ some inherited
  pub reads : read_block (length block) block ≡ map (λ i. i.text) items
  pub sorted : IsSorted sys items
  pub only : All (IsEntry sys variables inherited) items
  pub keeps : All (IsKept sys variables items) inherited
  pub sets : All (IsListed sys items) variables

abbrev pub Written : System → List Variable → Result EnvError (List ℕ) → Type 0
Written sys variables (failed e) = Unit
Written sys variables (done block) = Says sys variables block

module _ (sys : System) (law : IsOrdinary sys) where
  -- The items before they are sorted.
  abbrev IsWhole : List Variable → List (List ℕ) → List Item → Type 0
  IsWhole variables inherited items =
      All (λ i. IsString i.text × IsEntry sys variables inherited i) items
      × All (IsKept sys variables items) inherited
      × All (IsListed sys items) variables
