-- ===== src/Status.antt =====
-- ml-platform/worker/crucible_worker/status.py: the status hashes. A time is kept in whole seconds,
-- where the source writes the same instant as an RFC 3339 text.
use krmed_cloud_services.Base.{
  Text, ℕ, ◌*◌, ◌≡◌, refl, Bool, true, false, Option, none, some, List, [], ◌∷◌, ◌++◌, codes,
  text_eq, text_eq_iff, if◌then◌else◌, arith,
}
use krmed_cloud_services.World.{World, M, StatusHash, service, write}

abbrev pub terminal_ttl_seconds : ℕ
terminal_ttl_seconds = 24 * 3600

-- `STATUS_KEY_FMT.format(job_id)`
unfoldable pub status_key : Text → Text
status_key job_id = codes "jobs:status:" ++ job_id

unfoldable pub find_hash : Text → List (Text × StatusHash) → Option StatusHash
find_hash key [] = none
find_hash key ((k, h) ∷ rest) = if text_eq k key then some h else find_hash key rest

-- HSET of both fields: a hash that is there keeps its time to live.
unfoldable pub set_fields : Text → Text → ℕ → List (Text × StatusHash) → List (Text × StatusHash)
set_fields key status now [] = (key, record { status = status; updated_at = now; ttl = none }) ∷ []
set_fields key status now ((k, h) ∷ rest) =
    if text_eq k key
    then (k, record h { status = status; updated_at = now }) ∷ rest
    else (k, h) ∷ set_fields key status now rest

-- EXPIRE
unfoldable pub set_ttl : Text → ℕ → List (Text × StatusHash) → List (Text × StatusHash)
set_ttl key ttl [] = []
set_ttl key ttl ((k, h) ∷ rest) =
    if text_eq k key then (k, record h { ttl = some ttl }) ∷ rest else (k, h) ∷ set_ttl key ttl rest

-- The pipeline of `publish`.
unfoldable pub put_status : Text → Text → Bool → World → World
unfolding status_key set_fields set_ttl
put_status job_id status terminal w =
    let key = status_key job_id in
    let hashes = set_fields key status w.now w.hashes in
    record w { hashes = if terminal then set_ttl key terminal_ttl_seconds hashes else hashes }

unfoldable pub publish : Text → Text → Bool → M (Unit {0})
publish job_id status terminal = service (write (put_status job_id status terminal))

abbrev pub ttl_of : Option StatusHash → Option ℕ
ttl_of none = none
ttl_of (some h) = h.ttl

abbrev pub hash_of : Text → World → Option StatusHash
hash_of job_id w = find_hash (status_key job_id) w.hashes

find_hash-set_fields :
    (k j status : Text) (now : ℕ) (hs : List (Text × StatusHash))
    → find_hash j (set_fields k status now hs) ≡ (
        if text_eq k j
        then some (record { status = status; updated_at = now; ttl = ttl_of (find_hash k hs) })
        else find_hash j hs)
unfolding find_hash set_fields
find_hash-set_fields k j status now [] = refl
find_hash-set_fields k j status now ((i, h) ∷ hs) = ground (
  arith,
  text_eq_iff i k,
  text_eq_iff i j,
  text_eq_iff k j,
  find_hash-set_fields k j status now hs,
)

abbrev expiring : ℕ → Option StatusHash → Option StatusHash
expiring ttl none = none
expiring ttl (some h) = some (record h { ttl = some ttl })

find_hash-set_ttl :
    (k j : Text) (ttl : ℕ) (hs : List (Text × StatusHash))
    → find_hash j (set_ttl k ttl hs)
      ≡ (if text_eq k j then expiring ttl (find_hash j hs) else find_hash j hs)
unfolding find_hash set_ttl
find_hash-set_ttl k j ttl [] = ground arith
find_hash-set_ttl k j ttl ((i, h) ∷ hs) =
    ground (arith, text_eq_iff i k, text_eq_iff i j, text_eq_iff k j, find_hash-set_ttl k j ttl hs)

text_eq-status_key : (i j : Text) → text_eq (status_key i) (status_key j) ≡ text_eq i j
unfolding text_eq status_key
text_eq-status_key i j = refl

-- Publishing writes the status and the time of its own job's hash. It sets the time to live on a
-- terminal status and leaves it as it was on another; no other job's hash changes.
pub hash_of-put_status :
    (i j status : Text) (terminal : Bool) (w : World)
    → hash_of j (put_status i status terminal w) ≡ (
        if text_eq i j
        then some (record {
          status = status;
          updated_at = w.now;
          ttl = if terminal then some terminal_ttl_seconds else ttl_of (hash_of i w);
        })
        else hash_of j w)
unfolding put_status
hash_of-put_status i j status true w = ground (
  arith,
  text_eq-status_key i j,
  find_hash-set_ttl (status_key i) (status_key j) terminal_ttl_seconds
      (set_fields (status_key i) status w.now w.hashes),
  find_hash-set_fields (status_key i) (status_key j) status w.now w.hashes,
)
hash_of-put_status i j status false w = ground (
  arith,
  text_eq-status_key i j,
  find_hash-set_fields (status_key i) (status_key j) status w.now w.hashes,
)
