-- ===== src/Database/MergeGate/Merged.antt =====
-- What it takes to write to a shared database from a checkout.
use tr_shared_lib.Base.{some, true, List, [], ◌∷◌, map, ◌≡◌, All}
use tr_shared_lib.Base.Text.{Text}
use tr_shared_lib.Base.Words.{strip}
use tr_shared_lib.Database.MergeGate.{
  Answer, Machine, Blobs, blob_of, merged_blobs, local_blobs, toplevel_command,
}

-- One file that the integration branch has, byte for byte: its path there has its blob.
abbrev pub IsMerged : Machine → Text → Text → Blobs → (Text → Text) → Text → Type 0
IsMerged w repo versions merged hash name =
    (rel : Text) × (w.relative (w.join versions name) repo ≡ some rel)
    × (blob_of rel merged ≡ some (hash name))

-- Every one of the files is on the integration branch, whose listing git gives.
abbrev pub AreMerged : Machine → Text → Text → Text → (Text → Text) → List Text → Type 0
AreMerged w repo versions integration_ref hash [] = Unit
AreMerged w repo versions integration_ref hash (name ∷ names) =
    (rel_dir : Text) × (merged : Blobs) × (w.relative versions repo ≡ some rel_dir)
    × (merged_blobs w repo integration_ref rel_dir ≡ some merged)
    × All (IsMerged w repo versions merged hash) (name ∷ names)

-- On these files of this directory `git hash-object` prints the hash of each, in their order.
abbrev pub Hashes : Machine → Text → Text → (Text → Text) → List Text → Type 0
Hashes w repo versions hash names = local_blobs w repo versions names ≡ some (map hash names)

-- A checkout that git knows, and the repository that it belongs to.
abbrev pub IsCheckout : Machine → Text → Text → Type 0
IsCheckout w versions repo =
    (toplevel : Answer) × (w.git versions toplevel_command ≡ some toplevel)
    × (toplevel.succeeded ≡ true)
    × (w.resolve (strip toplevel.stdout) ≡ repo)
