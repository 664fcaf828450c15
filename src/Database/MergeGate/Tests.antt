-- ===== src/Database/MergeGate/Tests.antt =====
-- The gate on a checkout of one revision, `1.py`, with the blob `h` on both sides or another blob there.
use tr_shared_lib.Base.{
  Option, none, some, true, false, List, [], ◌∷◌, ◌++◌, drop, ◌≡◌, refl, if◌then◌else◌,
}
use tr_shared_lib.Base.Text.{Text, codes, same_text}
use tr_shared_lib.Base.Words.{
  is_space, strip, strip_left, extend, split_on, blanks, drop_empty, words, partition,
}
use tr_shared_lib.Database.MergeGate.{
  Answer, AlembicContext, Machine, unmerged, passed, skipped, refused, is_one_of, is_local_host,
  unwrap_alembic_context, named_write, writes, is_history_write, is_revision, revision_names,
  or_empty, last_part, redact, third, add_blob, add_record, parse_records, parse_listing, blob_of,
  sort_out, after_rel, verdict, toplevel_command, verify_command, is_local_dsn, revision_files,
  skip_merge_check_requested, read_blobs, merged_blobs, read_hashes, local_blobs, compare,
  after_local, after_merged, after_rel_dir, after_files, ran, in_repo, after_toplevel,
  assert_migrations_are_merged,
}
use tr_shared_lib.Database.MergeGate.Listing.{Line, print_listing}

abbrev answer : Text → Option Answer
answer stdout = some (record { succeeded = true; stdout = stdout; stderr = [] })

abbrev hash_lines : List Text → Text
hash_lines [] = []
hash_lines (name ∷ names) = b'h' ∷ 10 ∷ hash_lines names

abbrev line : Text → Line
line sha = record { mode = codes "100644"; kind = codes "blob"; sha = sha; path = codes "1.py" }

-- git in the directory `r`, with this listing
abbrev git_of : Text → Text → List Text → Option Answer
git_of listing directory [] = none
git_of listing directory (command ∷ args) =
    if same_text command (codes "ls-tree")
    then answer listing
    else if same_text command (codes "hash-object")
    then answer (hash_lines (drop 1 args))
    else answer (codes "r\n")

abbrev machine : Text → (Text → Option Text) → Machine
machine listing environ = record {
  git = git_of listing;
  is_dir = λ _. true;
  iterdir = λ _.
      record { name = codes "1.py"; is_file = true }
      ∷ record { name = codes "__init__.py"; is_file = true }
      ∷ record { name = codes "_archive"; is_file = false }
      ∷ [];
  resolve = λ path. path;
  join = λ _ name. name;
  relative = λ path _. some path;
  environ = environ;
  sort = λ names. names;
  hostname = λ dsn. some dsn;
}

abbrev no_environ : Text → Option Text
no_environ name = none

abbrev listing_of : Text → Text
listing_of sha = codes "100644 blob " ++ (sha ++ (9 ∷ (codes "1.py" ++ (0 ∷ []))))

abbrev upgrade : Option AlembicContext
upgrade = some (record {
  proxy = some (record { is_offline_mode = some false; fn = some (some (codes "upgrade")) });
  itself = record { is_offline_mode = none; fn = none };
})

printed : print_listing (line (codes "h") ∷ []) ≡ listing_of (codes "h")
unfolding print_listing
printed = refl

-- The same file passes, a changed one does not, and nor does it pass in silence where the escape hatch is
-- set in development.
changed :
    assert_migrations_are_merged
      (machine (listing_of (codes "g")) no_environ)
      (codes "cloud")
      (codes "v")
      upgrade
      (codes "origin/stage")
    ≡ refused (unmerged [] (codes "1.py" ∷ []))
unfolding assert_migrations_are_merged is_local_dsn is_local_host is_one_of is_history_write
    unwrap_alembic_context writes named_write after_toplevel toplevel_command in_repo
    skip_merge_check_requested or_empty strip strip_left is_space verify_command ran revision_files
    revision_names is_revision after_files after_rel_dir merged_blobs read_blobs parse_listing
    split_on extend parse_records add_record partition words blanks drop_empty third add_blob
    after_merged after_local local_blobs read_hashes compare after_rel blob_of sort_out verdict
changed = refl

merged :
    assert_migrations_are_merged
      (machine (listing_of (codes "h")) no_environ)
      (codes "cloud")
      (codes "v")
      upgrade
      (codes "origin/stage")
    ≡ passed
unfolding assert_migrations_are_merged is_local_dsn is_local_host is_one_of is_history_write
    unwrap_alembic_context writes named_write after_toplevel toplevel_command in_repo
    skip_merge_check_requested or_empty strip strip_left is_space verify_command ran revision_files
    revision_names is_revision after_files after_rel_dir merged_blobs read_blobs parse_listing
    split_on extend parse_records add_record partition words blanks drop_empty third add_blob
    after_merged after_local local_blobs read_hashes compare after_rel blob_of sort_out verdict
merged = refl

development : Text → Option Text
development name =
    if same_text name (codes "ENVIRONMENT") then some (codes "Test ") else some (codes "TRUE")

escaped :
    assert_migrations_are_merged
      (machine [] development)
      (codes "u:p@cloud")
      (codes "v")
      none
      (codes "origin/stage")
    ≡ skipped (codes "cloud")
unfolding assert_migrations_are_merged is_local_dsn is_local_host is_one_of is_history_write
    after_toplevel toplevel_command in_repo skip_merge_check_requested or_empty strip strip_left
    is_space redact last_part split_on extend development
escaped = refl

write : is_history_write upgrade ≡ true
unfolding is_history_write unwrap_alembic_context writes named_write is_one_of
write = refl
