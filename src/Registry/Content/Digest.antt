-- ===== src/Registry/Content/Digest.antt =====
-- The version of a dataset is the hash of its bytes: reading in chunks changes nothing, and a
-- directory is hashed as one stream of paths and contents with nothing between them.
use mathlib.Core.List.{append_assoc}
use krmed_cloud_services.Base.{
  Text, ℕ, zero, suc, ◌+◌, ◌≤◌, ◌<◌, ◌≡◌, refl, ap, sym, ◌∙◌, Option, none, some, List, [], ◌∷◌,
  ◌++◌, length, take, drop, take-append-drop, arith,
}
use krmed_cloud_services.Registry.Content.{
  Hash, Entry, and_then, hash_chunks, hash_file_into, hash_entries, hash_content, checksum_file,
  checksum_directory, sort_entries,
}

-- Updating twice is updating with both, as hashlib documents.
pub record HashLaws {H : Type 0} (hash : Hash H) : Type 0 where
  pub update_nil : (h : H) → hash.update h [] ≡ h
  pub update_append :
      (h : H) (a b : List ℕ) → hash.update (hash.update h a) b ≡ hash.update h (a ++ b)

length-drop-le : (n : ℕ) (xs : List ℕ) → length (drop n xs) ≤ length xs
length-drop-le zero xs = omega arith
length-drop-le (suc n) [] = omega arith
length-drop-le (suc n) (x ∷ xs) = omega (arith, length-drop-le n xs)

-- The bytes that a directory is hashed as.
abbrev pub bytes_of : (Text → List ℕ) → Text → Option (List ℕ) → List ℕ
bytes_of encode relative none = []
bytes_of encode relative (some content) = encode relative ++ content

abbrev pub stream : (Text → List ℕ) → List Entry → List ℕ
stream encode [] = []
stream encode (e ∷ es) = bytes_of encode e.relative e.content ++ stream encode es

module _ {H : Type 0} (hash : Hash H) (laws : HashLaws hash) where
  hash_chunks_lem :
      (size fuel : ℕ) (h : H) (content : List ℕ)
      → length content < fuel
      → hash_chunks hash (suc size) fuel h content ≡ some (hash.update h content)
  unfolding hash_chunks
  hash_chunks_lem size zero h content enough = elim enough [ ]
  hash_chunks_lem size (suc fuel) h [] enough = ap some (sym (laws.update_nil h))
  hash_chunks_lem size (suc fuel) h (x ∷ xs) enough =
      hash_chunks_lem size fuel (hash.update h (x ∷ take size xs)) (drop size xs)
        (omega (arith, length-drop-le size xs))
      ∙ ap some (
          laws.update_append h (x ∷ take size xs) (drop size xs)
          ∙ ap (λ l. hash.update h (x ∷ l)) (take-append-drop size xs))

  hash_file_into_lem :
      (h : H) (content : List ℕ) → hash_file_into hash h content ≡ some (hash.update h content)
  unfolding hash_file_into
  hash_file_into_lem h content =
      hash_chunks_lem 8388607 (length content + 1) h content (omega arith)

  -- For a hash whose updates, one after another, are one update with all the bytes: the loop that reads
  -- a file chunk by chunk ends, and the checksum of a file is the hash of its bytes, whatever its
  -- length.
  pub checksum_file-eq-hash :
      (content : List ℕ)
      → checksum_file hash content ≡ some (hash.hexdigest (hash.update hash.start content))
  unfolding checksum_file
  checksum_file-eq-hash content = rw (hash_file_into_lem hash.start content) refl

  module _ (encode : Text → List ℕ) where
    hash_content_lem :
        (h : H) (relative : Text) (content : Option (List ℕ))
        → hash_content hash encode h relative content
          ≡ some (hash.update h (bytes_of encode relative content))
    hash_content_lem h relative none = ap some (sym (laws.update_nil h))
    hash_content_lem h relative (some content) =
        hash_file_into_lem (hash.update h (encode relative)) content
        ∙ ap some (laws.update_append h (encode relative) content)

    hash_entries_lem :
        (h : H) (entries : List Entry)
        → hash_entries hash encode h entries ≡ some (hash.update h (stream encode entries))
    unfolding hash_entries
    hash_entries_lem h [] = ap some (sym (laws.update_nil h))
    hash_entries_lem h (e ∷ es) =
        ap (λ o. and_then o (λ h'. hash_entries hash encode h' es))
          (hash_content_lem h e.relative e.content)
        ∙ hash_entries_lem (hash.update h (bytes_of encode e.relative e.content)) es
        ∙ ap some (laws.update_append h (bytes_of encode e.relative e.content) (stream encode es))

    -- The checksum of a directory is the hash of the paths and contents of its files, one after
    -- another in the order of their paths, with nothing between them.
    pub checksum_directory-eq-hash :
        (entries : List Entry)
        → checksum_directory hash encode entries
          ≡ some (hash.hexdigest (hash.update hash.start (stream encode (sort_entries entries))))
    unfolding checksum_directory
    checksum_directory-eq-hash entries =
        rw (hash_entries_lem hash.start (sort_entries entries)) refl

abbrev pub a_file : Text → List ℕ → Entry
a_file path content = record { relative = path; content = some content }

stream-append :
    (encode : Text → List ℕ) (xs ys : List Entry)
    → stream encode (xs ++ ys) ≡ stream encode xs ++ stream encode ys
stream-append encode [] ys = refl
stream-append encode (e ∷ es) ys =
    ap (λ l. bytes_of encode e.relative e.content ++ l) (stream-append encode es ys)
    ∙ sym
        (append_assoc (bytes_of encode e.relative e.content) (stream encode es) (stream encode ys))

-- Two directories have the same checksum when their entries, in the order of their paths, are the
-- same but for one file at the same place, whose contents begin with a text in the first directory,
-- and whose path ends with that text in the second: for every hash whose updates, one after another,
-- are one update with all the bytes, and for every encoding that encodes a text character by
-- character.
pub checksum_directory_collides :
    {H : Type 0} (hash : Hash H) (encode : Text → List ℕ) (first second before after : List Entry)
    (path moved : Text) (content : List ℕ)
    → HashLaws hash
    → ((s t : Text) → encode (s ++ t) ≡ encode s ++ encode t)
    → sort_entries first ≡ before ++ a_file path (encode moved ++ content) ∷ after
    → sort_entries second ≡ before ++ a_file (path ++ moved) content ∷ after
    → checksum_directory hash encode first ≡ checksum_directory hash encode second
checksum_directory_collides hash encode first second before after path moved content laws splits e
      f =
    let same : stream encode (sort_entries first) ≡ stream encode (sort_entries second) =
      ap (stream encode) e
      ∙ stream-append encode before (a_file path (encode moved ++ content) ∷ after)
      ∙ ap (λ l. stream encode before ++ (l ++ stream encode after))
          (sym (append_assoc (encode path) (encode moved) content)
            ∙ ap (λ l. l ++ content) (sym (splits path moved)))
      ∙ sym (
          ap (stream encode) f
          ∙ stream-append encode before (a_file (path ++ moved) content ∷ after)) in
    checksum_directory-eq-hash hash laws encode first
    ∙ ap (λ l. some (hash.hexdigest (hash.update hash.start l))) same
    ∙ sym (checksum_directory-eq-hash hash laws encode second)
