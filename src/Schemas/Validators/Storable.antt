-- ===== src/Schemas/Validators/Storable.antt =====
-- That the search ends and finds what is there.
use tr_shared_lib.Base.{
  ℕ, zero, suc, ◌+◌, ◌≤◌, Option, none, some, Bool, true, false, ◌&&◌, not, [], ◌∷◌, ◌++◌, ◌≡◌, ◌≢◌,
  refl, ◌∙◌, arith, if◌then◌else◌, Bool-cases, inl, inr,
}
use tr_shared_lib.Schemas.Validators.{
  Json, text, object, list, scalar, Fields, no_fields, field, Items, no_items, item, key, index,
  Location, Pending, is_unstorable, push_fields, push_items, look, unstorable_text_location,
}

-- A value, the keys of its objects and all that is in it can be stored.
unfoldable mutual
  pub is_storable : Json → Bool
  is_storable (text t) = not (is_unstorable t)
  is_storable (object fields) = fields_storable fields
  is_storable (list items) = items_storable items
  is_storable scalar = true

  pub fields_storable : Fields → Bool
  fields_storable no_fields = true
  fields_storable (field name inner fields) =
      not (is_unstorable name) && is_storable inner && fields_storable fields

  pub items_storable : Items → Bool
  items_storable no_items = true
  items_storable (item inner items) = is_storable inner && items_storable items

-- the number of values in a value
unfoldable mutual
  pub size : Json → ℕ
  size (text t) = 1
  size (object fields) = 1 + fields_size fields
  size (list items) = 1 + items_size items
  size scalar = 1

  pub fields_size : Fields → ℕ
  fields_size no_fields = 0
  fields_size (field name inner fields) = size inner + fields_size fields

  pub items_size : Items → ℕ
  items_size no_items = 0
  items_size (item inner items) = size inner + items_size items

unfoldable pub all_storable : Pending → Bool
all_storable [] = true
all_storable ((path, value) ∷ pending) = is_storable value && all_storable pending

unfoldable pub total : Pending → ℕ
total [] = 0
total ((path, value) ∷ pending) = size value + total pending

abbrev Pushed : Fields → Pending → Option Pending → Type 0
Pushed fields pending none = fields_storable fields ≡ false
Pushed fields pending (some pushed) =
    (all_storable pushed ≡ (fields_storable fields && all_storable pending))
    × (total pushed ≡ fields_size fields + total pending)

push_fields-Pushed :
    (path : Location) (fields : Fields) (pending : Pending)
    → Pushed fields pending (push_fields path fields pending)
unfolding push_fields fields_storable fields_size
push_fields-Pushed path no_fields pending = (refl, omega arith)
push_fields-Pushed path (field name inner fields) pending =
    go (is_unstorable name) (push_fields path fields pending')
      (push_fields-Pushed path fields pending')
  where
    pending' : Pending
    pending' = (path ++ (key name ∷ []), inner) ∷ pending

    go :
        (bad : Bool) (pushed : Option Pending)
        → Pushed fields pending' pushed
        → elim (if bad then none else pushed) as (λ _. Type 0) [
          | none ↦ (not bad && is_storable inner && fields_storable fields) ≡ false
          | some more ↦
              (all_storable more ≡ (
                (not bad && is_storable inner && fields_storable fields) && all_storable pending))
              × (total more ≡ (size inner + fields_size fields) + total pending)
        ]
    go true pushed h = refl
    go false none h = ground (arith, h)
    go false (some more) h = unfold all_storable total in (ground (arith, h.0), omega (arith, h.1))

push_items-storable :
    (path : Location) (n : ℕ) (items : Items) (pending : Pending)
    → (all_storable (push_items path n items pending)
        ≡ (items_storable items && all_storable pending))
      × (total (push_items path n items pending) ≡ items_size items + total pending)
unfolding push_items items_storable items_size all_storable total
push_items-storable path n no_items pending = (refl, omega arith)
push_items-storable path n (item inner items) pending =
    let (storable, same) =
      push_items-storable path (n + 1) items ((path ++ (index n ∷ []), inner) ∷ pending) in
    (ground (arith, storable), omega (arith, same))

abbrev pub is_none : Option Location → Bool
is_none none = true
is_none (some path) = false

impossible : (n : ℕ) → 1 + n ≤ 0 → n ≢ n
impossible n h e = omega (arith, h)

-- The search from what is pending, with fuel for every value in it.
look_lem :
    (fuel : ℕ) (pending : Pending)
    → total pending ≤ fuel
    → (found : Option Location) × (look fuel pending ≡ some found)
      × (is_none found ≡ all_storable pending)
unfolding look all_storable total size is_storable
look_lem fuel [] h = (none, refl, refl)
look_lem zero ((path, text t) ∷ pending) h = elim (impossible 0 (omega (arith, h)) refl) [ ]
look_lem zero ((path, scalar) ∷ pending) h = elim (impossible 0 (omega (arith, h)) refl) [ ]
look_lem zero ((path, list items) ∷ pending) h =
    elim (impossible (items_size items) (omega (arith, h)) refl) [ ]
look_lem zero ((path, object fields) ∷ pending) h =
    elim (impossible (fields_size fields) (omega (arith, h)) refl) [ ]
look_lem (suc fuel) ((path, text t) ∷ pending) h =
    let (found, same, storable) = look_lem fuel pending (omega (arith, h)) in
    elim (Bool-cases (is_unstorable t)) [
      | inl bad ↦ (some path, rw bad refl, rw bad refl)
      | inr good ↦ (found, rw good same, rw good storable)
    ]
look_lem (suc fuel) ((path, scalar) ∷ pending) h = look_lem fuel pending (omega (arith, h))
look_lem (suc fuel) ((path, list items) ∷ pending) h =
    let (storable, same) = push_items-storable path 0 items pending in
    let (found, e, none_found) =
      look_lem fuel (push_items path 0 items pending) (omega (arith, h, same)) in
    (found, e, none_found ∙ storable)
look_lem (suc fuel) ((path, object fields) ∷ pending) h =
    go (push_fields path fields pending) (push_fields-Pushed path fields pending)
      (λ pushed. look_lem fuel pushed)
  where
    go :
        (pushed : Option Pending)
        → Pushed fields pending pushed
        → ((more : Pending)
            → total more ≤ fuel
            → (found : Option Location) × (look fuel more ≡ some found)
              × (is_none found ≡ all_storable more))
        → (found : Option Location) × ((elim pushed as (λ _. Option (Option Location)) [
          | none ↦ some (some path)
          | some more ↦ look fuel more
        ])
            ≡ some found)
          × (is_none found ≡ (fields_storable fields && all_storable pending))
    go none bad again = (some path, refl, rw bad refl)
    go (some more) (storable, same) again =
        let (found, e, none_found) = again more (omega (arith, h, same)) in
        (found, e, none_found ∙ storable)

-- With fuel for each value in it, the search of a value of JSON ends, and it finds no place exactly
-- when every text and every key in the value can be stored.
pub unstorable_text_location_lem :
    (fuel : ℕ) (value : Json)
    → size value ≤ fuel
    → (found : Option Location) × (unstorable_text_location fuel value ≡ some found)
      × (is_none found ≡ is_storable value)
unfolding unstorable_text_location all_storable total
unstorable_text_location_lem fuel value h =
    let (found, e, none_found) = look_lem fuel (([], value) ∷ []) (omega (arith, h)) in
    (found, e, ground (arith, none_found))
