-- ===== src/Database/MergeGate.antt =====
-- The gate of src/tr_shared/db/migrations/merge_gate.py: it ends the process (`SystemExit`) before a
-- migration that is not on the integration branch can be written to a shared database. Git, the file
-- system, the environment and the parser of a DSN are parameters.
pub mod Listing
pub mod Merged
mod Tests
use tr_shared_lib.Base.{
  ℕ, zero, suc, String, Option, none, some, Bool, true, false, ◌&&◌, ◌||◌, not, List, [], ◌∷◌, map,
  any, length, ltb, if◌then◌else◌,
}
use tr_shared_lib.Base.Text.{Text, codes, lower, same_text, starts_with, ends_with}
use tr_shared_lib.Base.Words.{strip, split_on, words, partition}

-- what a git command that ran gives back
pub record Answer : Type 0 where
  pub succeeded : Bool
  pub stdout : Text
  pub stderr : Text

-- an entry of the directory of the revisions
pub record Entry : Type 0 where
  pub name : Text
  pub is_file : Bool

-- Alembic's `EnvironmentContext`. `is_offline_mode` is none where the call raises
-- `AttributeError` or `TypeError`, and `fn` where reading `context_opts` does; `some none` is a function
-- with no name, or none at all.
pub record EnvironmentContext : Type 0 where
  pub is_offline_mode : Option Bool
  pub fn : Option (Option Text)

-- `alembic.context`: what its `_proxy` gives, and what it gives itself
pub record AlembicContext : Type 0 where
  pub proxy : Option EnvironmentContext
  pub itself : EnvironmentContext

pub record Machine : Type 0 where
  -- a command in a directory, none where there is no git
  pub git : Text → List Text → Option Answer
  pub is_dir : Text → Bool
  pub iterdir : Text → List Entry
  pub resolve : Text → Text
  -- `directory / name`
  pub join : Text → Text → Text
  -- `path.relative_to(directory).as_posix()`, none where it raises `ValueError`
  pub relative : Text → Text → Option Text
  pub environ : Text → Option Text
  -- `sorted` of the file names
  pub sort : List Text → List Text
  -- `urlsplit(dsn).hostname`: none where it raises `ValueError`, the empty text for no host
  pub hostname : Text → Option Text

-- Why the process is ended.
pub data Refusal : Type 0 where
  unreadable_listing unhashable no_integration_ref : Refusal
  -- the files that are not on the integration branch, and those that have changed
  unmerged : List Text → List Text → Refusal

pub data Verdict : Type 0 where
  passed : Verdict
  -- the escape hatch, with what is printed of the DSN
  skipped : Text → Verdict
  refused : Refusal → Verdict
  -- a `ValueError`
  failed : Verdict

unfoldable pub is_one_of : List String → Text → Bool
is_one_of names text = any (λ name. same_text (codes name) text) names

-- `LOCAL_DB_HOSTS`
abbrev pub local_db_hosts : List String
local_db_hosts = "localhost" ∷ "127.0.0.1" ∷ "::1" ∷ "postgres" ∷ "postgres-test" ∷ "db" ∷ []

unfoldable pub is_local_host : Option Text → Bool
is_local_host none = false
is_local_host (some host) =
    is_one_of local_db_hosts (lower host) || starts_with (lower host) (codes "tr-test-")

abbrev pub history_writing_alembic_fns : List String
history_writing_alembic_fns = "upgrade" ∷ "downgrade" ∷ "do_stamp" ∷ []

unfoldable pub unwrap_alembic_context : AlembicContext → EnvironmentContext
unwrap_alembic_context c = elim c.proxy [ some context ↦ context | none ↦ c.itself ]

unfoldable pub named_write : Option (Option Text) → Bool
named_write none = true
named_write (some none) = true
named_write (some (some name)) = is_one_of history_writing_alembic_fns name

unfoldable pub writes : Option Bool → Option (Option Text) → Bool
writes none fn = true
writes (some true) fn = false
writes (some false) fn = named_write fn

-- `_is_history_write`
unfoldable pub is_history_write : Option AlembicContext → Bool
is_history_write none = true
is_history_write (some c) =
    let context = unwrap_alembic_context c in writes context.is_offline_mode context.fn

-- `path.suffix == ".py" and path.name != "__init__.py"`, of a file
unfoldable pub is_revision : Entry → Bool
is_revision entry =
    entry.is_file
    && ends_with entry.name (codes ".py")
    && ltb 3 (length entry.name)
    && not (same_text entry.name (codes "__init__.py"))

unfoldable pub revision_names : List Entry → List Text
revision_names [] = []
revision_names (entry ∷ entries) =
    let rest = revision_names entries in if is_revision entry then entry.name ∷ rest else rest

unfoldable pub or_empty : Option Text → Text
or_empty none = []
or_empty (some text) = text

-- `dsn.rsplit("@", 1)[-1]`
unfoldable pub last_part : List Text → Text
last_part [] = []
last_part (part ∷ []) = part
last_part (part ∷ another ∷ parts) = last_part (another ∷ parts)

unfoldable pub redact : Text → Text
redact dsn = last_part (split_on b'@' dsn)

-- a blob of the integration branch: its path and its hash
abbrev pub Blobs : Type 0
Blobs = List (Text × Text)

-- the third word of a record's first half
unfoldable pub third : List Text → Option Text
third [] = none
third (a ∷ []) = none
third (a ∷ b ∷ []) = none
third (a ∷ b ∷ c ∷ rest) = some c

unfoldable pub add_blob : Text → Option Text → Blobs → Blobs
add_blob path none blobs = blobs
add_blob path (some sha) blobs = (path, sha) ∷ blobs

unfoldable pub add_record : Text → Blobs → Blobs
add_record [] blobs = blobs
add_record (c ∷ cs) blobs =
    let (meta, path) = partition 9 (c ∷ cs) in add_blob path (third (words meta)) blobs

-- The blobs of a listing. A later record of a path comes later, and `blob_of` takes the last.
unfoldable pub parse_records : List Text → Blobs
parse_records [] = []
parse_records (entry ∷ entries) = add_record entry (parse_records entries)

unfoldable pub parse_listing : Text → Blobs
parse_listing stdout = parse_records (split_on 0 stdout)

-- `merged.get(rel)`
unfoldable pub blob_of : Text → Blobs → Option Text
blob_of path [] = none
blob_of path ((other_path, sha) ∷ blobs) = elim (blob_of path blobs) [
  | some later ↦ some later
  | none ↦ if same_text other_path path then some sha else none
]

-- the files that are absent, and those that are modified
unfoldable pub sort_out : Text → Option Text → Text → List Text × List Text → List Text × List Text
sort_out name none sha (absent, modified) = (name ∷ absent, modified)
sort_out name (some merged) sha (absent, modified) =
    if same_text merged sha then (absent, modified) else (absent, name ∷ modified)

unfoldable pub after_rel :
    Text
    → Text
    → Blobs
    → Option Text
    → Option (List Text × List Text)
    → Option (List Text × List Text)
after_rel name sha merged none rest = none
after_rel name sha merged (some rel) none = none
after_rel name sha merged (some rel) (some found) =
    some (sort_out name (blob_of rel merged) sha found)

unfoldable pub verdict : Option (List Text × List Text) → Verdict
verdict none = failed
verdict (some ([], [])) = passed
verdict (some (a ∷ absent, modified)) = refused (unmerged (a ∷ absent) modified)
verdict (some ([], m ∷ modified)) = refused (unmerged [] (m ∷ modified))

-- the arguments of `git`
unfoldable pub toplevel_command : List Text
toplevel_command = codes "rev-parse" ∷ codes "--show-toplevel" ∷ []

unfoldable pub verify_command : Text → List Text
verify_command integration_ref =
    codes "rev-parse" ∷ codes "--verify" ∷ codes "--quiet" ∷ integration_ref ∷ []

module _ (w : Machine) where
  -- `is_local_dsn`
  unfoldable pub is_local_dsn : Text → Bool
  is_local_dsn dsn = is_local_host (w.hostname dsn)

  unfoldable pub revision_files : Text → List Text
  revision_files versions_dir = w.sort (revision_names (w.iterdir versions_dir))

  unfoldable pub skip_merge_check_requested : Bool
  skip_merge_check_requested =
      is_one_of ("1" ∷ "true" ∷ "yes" ∷ [])
        (lower (strip (or_empty (w.environ (codes "TR_MIGRATIONS_SKIP_MERGE_CHECK")))))
      && is_one_of ("development" ∷ "test" ∷ [])
          (lower (strip (or_empty (w.environ (codes "ENVIRONMENT")))))

  unfoldable pub read_blobs : Option Answer → Option Blobs
  read_blobs none = none
  read_blobs (some answer) = if answer.succeeded then some (parse_listing answer.stdout) else none

  unfoldable pub merged_blobs : Text → Text → Text → Option Blobs
  merged_blobs repo integration_ref rel_dir = read_blobs (
      w.git repo
        (codes "ls-tree" ∷ codes "-r" ∷ codes "-z" ∷ integration_ref ∷ codes "--" ∷ rel_dir ∷ []))

  unfoldable pub read_hashes : Option Answer → Option (List Text)
  read_hashes none = none
  read_hashes (some answer) = if answer.succeeded then some (words answer.stdout) else none

  unfoldable pub local_blobs : Text → Text → List Text → Option (List Text)
  local_blobs repo versions names =
      read_hashes (w.git repo (codes "hash-object" ∷ codes "--" ∷ map (w.join versions) names))

  -- `zip(files, local, strict=True)`, each file under its name in the directory
  unfoldable pub compare :
      Text → Text → Blobs → List Text → List Text → Option (List Text × List Text)
  compare repo versions merged [] [] = some ([], [])
  compare repo versions merged [] (sha ∷ shas) = none
  compare repo versions merged (name ∷ names) [] = none
  compare repo versions merged (name ∷ names) (sha ∷ shas) =
      after_rel name sha merged (w.relative (w.join versions name) repo)
        (compare repo versions merged names shas)

  unfoldable pub after_local : Text → Text → List Text → Blobs → Option (List Text) → Verdict
  after_local repo versions names merged none = refused unhashable
  after_local repo versions names merged (some shas) =
      verdict (compare repo versions merged names shas)

  unfoldable pub after_merged : Text → Text → List Text → Option Blobs → Verdict
  after_merged repo versions names none = refused unreadable_listing
  after_merged repo versions names (some merged) =
      after_local repo versions names merged (local_blobs repo versions names)

  unfoldable pub after_rel_dir : Text → Text → Text → List Text → Option Text → Verdict
  after_rel_dir repo versions integration_ref names none = failed
  after_rel_dir repo versions integration_ref names (some rel_dir) =
      after_merged repo versions names (merged_blobs repo integration_ref rel_dir)

  unfoldable pub after_files : Text → Text → Text → List Text → Verdict
  after_files repo versions integration_ref [] = passed
  after_files repo versions integration_ref (name ∷ names) =
      after_rel_dir repo versions integration_ref (name ∷ names) (w.relative versions repo)

  unfoldable pub ran : Option Answer → Bool
  ran none = false
  ran (some answer) = answer.succeeded

  unfoldable pub in_repo : Text → Text → Text → Text → Verdict
  in_repo dsn versions integration_ref repo =
      if skip_merge_check_requested
      then skipped (redact dsn)
      else if ran (w.git repo (verify_command integration_ref))
      then after_files repo versions integration_ref (revision_files versions)
      else refused no_integration_ref

  unfoldable pub after_toplevel : Text → Text → Text → Option Answer → Verdict
  after_toplevel dsn versions integration_ref none = passed
  after_toplevel dsn versions integration_ref (some answer) =
      if answer.succeeded
      then in_repo dsn versions integration_ref (w.resolve (strip answer.stdout))
      else passed

  unfoldable pub assert_migrations_are_merged : Text → Text → Option AlembicContext → Text → Verdict
  assert_migrations_are_merged dsn versions_dir alembic_context integration_ref =
      let versions = w.resolve versions_dir in
      if is_local_dsn dsn
      then passed
      else if not (is_history_write alembic_context)
      then passed
      else if not (w.is_dir versions)
      then passed
      else after_toplevel dsn versions integration_ref (w.git versions toplevel_command)
