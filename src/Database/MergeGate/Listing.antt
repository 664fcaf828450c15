-- ===== src/Database/MergeGate/Listing.antt =====
-- What `git ls-tree -r -z` prints, and that the gate reads it back.
use tr_shared_lib.Base.{ℕ, false, List, [], ◌∷◌, ◌++◌, map, ◌≡◌, ◌≢◌, refl, ap, All, ◌==◌, arith}
use tr_shared_lib.Base.Text.{Text}
use tr_shared_lib.Base.Words.{
  is_space, split_on, drop_empty, words, partition, Avoids, IsWord, split_on-append,
  partition-append, blanks-word, blanks-append,
}
use tr_shared_lib.Database.MergeGate.{
  Blobs, third, add_blob, add_record, parse_records, parse_listing,
}

-- a line of the listing
pub record Line : Type 0 where
  pub mode : Text
  pub kind : Text
  pub sha : Text
  pub path : Text

abbrev meta : Line → Text
meta line = line.mode ++ (32 ∷ (line.kind ++ (32 ∷ line.sha)))

abbrev line_text : Line → Text
line_text line = meta line ++ (9 ∷ line.path)

unfoldable pub print_listing : List Line → Text
print_listing [] = []
print_listing (line ∷ lines) = line_text line ++ (0 ∷ print_listing lines)

-- a word that is there, of no blank and no NUL
abbrev pub IsField : Text → Type 0
IsField word = (word ≢ []) × IsWord word × Avoids 0 word

-- Any path without a NUL will do: blanks, tabs and letters of any alphabet.
abbrev pub IsLine : Line → Type 0
IsLine line = IsField line.mode × IsField line.kind × IsField line.sha × Avoids 0 line.path

word-no_tab : (word : Text) → IsWord word → Avoids 9 word
unfolding is_space
word-no_tab [] h = tt
word-no_tab (c ∷ cs) h = (ground (arith, h.0), word-no_tab cs h.1)

Avoids-append :
    (sep c : ℕ) (a b : Text)
    → Avoids sep a
    → c == sep ≡ false
    → Avoids sep b
    → Avoids sep (a ++ (c ∷ b))
Avoids-append sep c [] b h e k = (e, k)
Avoids-append sep c (x ∷ a) b h e k = (h.0, Avoids-append sep c a b h.1 e k)

meta-Avoids :
    (sep : ℕ) (line : Line)
    → 32 == sep ≡ false
    → Avoids sep line.mode
    → Avoids sep line.kind
    → Avoids sep line.sha
    → Avoids sep (meta line)
meta-Avoids sep line e mode kind sha =
    Avoids-append sep 32 line.mode (line.kind ++ (32 ∷ line.sha)) mode e
      (Avoids-append sep 32 line.kind line.sha kind e sha)

drop_empty-full :
    (word : Text) (rest : List Text) → word ≢ [] → drop_empty (word ∷ rest) ≡ word ∷ drop_empty rest
unfolding drop_empty
drop_empty-full [] rest h = elim (h refl) [ ]
drop_empty-full (c ∷ cs) rest h = refl

words-meta : (line : Line) → IsLine line → words (meta line) ≡ line.mode ∷ line.kind ∷ line.sha ∷ []
unfolding words
words-meta line h = rw (blanks-append line.mode (line.kind ++ (32 ∷ line.sha)) h.0.1) (
    rw (blanks-append line.kind line.sha h.1.1) (
      rw (blanks-word line.sha h.2.1) (
        rw (drop_empty-full line.mode (line.kind ∷ line.sha ∷ []) h.0.0) (
          rw (drop_empty-full line.kind (line.sha ∷ []) h.1.0)
            (rw (drop_empty-full line.sha [] h.2.0) (unfold drop_empty in refl))))))

add_record-partition :
    (first : Text) (rest : Text) (blobs : Blobs)
    → first ≢ []
    → add_record (first ++ rest) blobs
      ≡ add_blob
          (partition 9 (first ++ rest)).1
          (third (words (partition 9 (first ++ rest)).0))
          blobs
unfolding add_record
add_record-partition [] rest blobs h = elim (h refl) [ ]
add_record-partition (c ∷ cs) rest blobs h = refl

meta-full : (line : Line) → IsLine line → meta line ≢ []
meta-full line h = go line.mode h.0.0
  where
    go : (mode : Text) → mode ≢ [] → mode ++ (32 ∷ (line.kind ++ (32 ∷ line.sha))) ≢ []
    go [] full e = full refl
    go (c ∷ cs) full e = ground (arith, e)

add_record-line :
    (line : Line) (blobs : Blobs)
    → IsLine line
    → add_record (line_text line) blobs ≡ (line.path, line.sha) ∷ blobs
add_record-line line blobs h =
    rw (add_record-partition (meta line) (9 ∷ line.path) blobs (meta-full line h)) (
      rw
        (partition-append 9 (meta line) line.path (
          meta-Avoids 9 line refl (word-no_tab line.mode h.0.1) (word-no_tab line.kind h.1.1)
            (word-no_tab line.sha h.2.1)))
        (rw (words-meta line h) (unfold third add_blob in refl)))

-- What git prints of the blobs of a branch is read back as those blobs, in order, each with its path
-- and its hash, where no mode, kind or hash is empty or has a blank and nothing has a NUL; the paths
-- may have blanks and tabs.
parse_listing-print_listing :
    (lines : List Line)
    → All IsLine lines
    → parse_listing (print_listing lines) ≡ map (λ (line : Line). (line.path, line.sha)) lines
unfolding parse_listing print_listing parse_records
parse_listing-print_listing [] h = unfold split_on add_record in refl
parse_listing-print_listing (line ∷ lines) h =
    let (mode, kind, sha, path) = h.0 in
    rw
      (split_on-append 0 (line_text line) (print_listing lines) (
        Avoids-append 0 9 (meta line) line.path (meta-Avoids 0 line refl mode.2 kind.2 sha.2) refl
          path))
      (rw (add_record-line line (parse_records (split_on 0 (print_listing lines))) h.0)
        (ap (λ rest. (line.path, line.sha) ∷ rest) (parse_listing-print_listing lines h.1)))
