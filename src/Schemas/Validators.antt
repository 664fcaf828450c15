-- ===== src/Schemas/Validators.antt =====
-- `unstorable_text_location` of src/tr_shared/schemas/validators.py: where a value of JSON has a text that
-- PostgreSQL cannot store. The source keeps a list of what it still has to look at, and takes the
-- last; the head of the list here is the last there. The loop runs on fuel, and `none` says that it
-- ran out.
pub mod Storable
use tr_shared_lib.Base.{
  ℕ, zero, suc, ◌+◌, Option, none, some, Bool, true, false, ◌&&◌, ◌||◌, not, List, [], ◌∷◌, ◌++◌,
  any, leb, ◌==◌, if◌then◌else◌,
}
use tr_shared_lib.Base.Text.{Text}

mutual
  pub data Json : Type 0 where
    text : Text → Json
    object : Fields → Json
    list : Items → Json
    -- a number, a Boolean or null
    scalar : Json

  pub data Fields : Type 0 where
    no_fields : Fields
    field : Text → Json → Fields → Fields

  pub data Items : Type 0 where
    no_items : Items
    item : Json → Items → Items

pub data Step : Type 0 where
  key : Text → Step
  index : ℕ → Step

abbrev pub Location : Type 0
Location = List Step

abbrev pub Pending : Type 0
Pending = List (Location × Json)

-- NUL or a surrogate
unfoldable pub is_unstorable_character : ℕ → Bool
is_unstorable_character c = c == 0 || (leb 55296 c && leb c 57343)

-- `_UNSTORABLE_TEXT.search(text)`
unfoldable pub is_unstorable : Text → Bool
is_unstorable = any is_unstorable_character

-- the loop over an object, none where a key is unstorable
unfoldable pub push_fields : Location → Fields → Pending → Option Pending
push_fields path no_fields pending = some pending
push_fields path (field name inner fields) pending =
    let rest = push_fields path fields ((path ++ (key name ∷ []), inner) ∷ pending) in
    if is_unstorable name then none else rest

unfoldable pub push_items : Location → ℕ → Items → Pending → Pending
push_items path n no_items pending = pending
push_items path n (item inner items) pending =
    push_items path (n + 1) items ((path ++ (index n ∷ []), inner) ∷ pending)

unfoldable pub look : ℕ → Pending → Option (Option Location)
look fuel [] = some none
look zero ((path, value) ∷ pending) = none
look (suc fuel) ((path, text t) ∷ pending) =
    let rest = look fuel pending in if is_unstorable t then some (some path) else rest
look (suc fuel) ((path, scalar) ∷ pending) = look fuel pending
look (suc fuel) ((path, list items) ∷ pending) = look fuel (push_items path 0 items pending)
look (suc fuel) ((path, object fields) ∷ pending) = elim (push_fields path fields pending) [
  | none ↦ some (some path)
  | some pending' ↦ look fuel pending'
]

unfoldable pub unstorable_text_location : ℕ → Json → Option (Option Location)
unstorable_text_location fuel value = look fuel (([], value) ∷ [])
