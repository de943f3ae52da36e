-- ===== src/StorageServer/Removal.antt =====
-- The delete handler of src/storage/storage_server.cpp, on both of its branches.
use rackkey.Common.{
  ℕ, ◌^◌, ◌<◌, ◌≡◌, refl, List, true, ◌==◌, ==_iff, Bool-cases, inl, inr, Option, Option-cases,
  none, some, if◌then◌else◌, length, ap, sym, ◌∙◌,
}
use rackkey.Common.Results.{ok}
use rackkey.DiskStorage.{DiskStorage}
use rackkey.Bat.{BatEntry, find_bat_entry}
use rackkey.DiskStorage.Consistent.{IsConsistent, contents}
use rackkey.DiskStorage.Deleting.{delete_blocks_lem, delete_blocks_missing}
use package.rackkey.StorageServer.{
  Config, Exchange, size_reply, answered, bare, internal_error, delete_handler, caught, reply,
}

-- What becomes of a delete's request: the sizes after it for a key with a row; without one, the error
-- is sent and the second call of `reply` throws.
abbrev pub delete_outcome : Option (ℕ × BatEntry) → DiskStorage → Exchange
delete_outcome none after = record (answered (bare internal_error)) { threw = true }
delete_outcome (some _) after = answered (size_reply after)

absent : (ds : DiskStorage) (h : ℕ) → find_bat_entry ds.bat h ≡ none → contents ds h ≡ none
unfolding contents
absent ds h e = rw e refl

-- On a consistent storage of fewer than 2^32 rows, a delete of a key that has a row is answered with the sizes after it; of another key, it is answered with an error, and the
-- handler ends with the exception of its second call of `reply`. In both cases the storage is
-- consistent afterwards, has no contents for the key's hash, and the same as before for every other.
pub delete_handler_all :
    (sha256_32 : List ℕ → ℕ) (config : Config) (ds : DiskStorage) (key : List ℕ)
    → IsConsistent ds
    → length ds.bat.table < 2 ^ 32
    → (after : DiskStorage) × (delete_handler sha256_32 config key ds
        ≡ (ok (delete_outcome (find_bat_entry ds.bat (sha256_32 key)) after), after))
      × IsConsistent after
      × ((h : ℕ) → contents after h ≡ (if sha256_32 key == h then none else contents ds h))
unfolding delete_handler caught reply
delete_handler_all sha256_32 config ds key c few =
    elim (Option-cases (find_bat_entry ds.bat (sha256_32 key))) [
      | inl e ↦ (
        ds,
        rw (delete_blocks_missing sha256_32 ds key c e, e) refl,
        c,
        λ h. elim (Bool-cases (sha256_32 key == h)) [
          | inl hit ↦ rw hit (
              absent ds h (ap (find_bat_entry ds.bat) (sym ((==_iff (sha256_32 key) h).0 hit)) ∙ e))
          | inr miss ↦ rw miss refl
        ],
      )
      | inr ((i, be), e) ↦
          let (after, run, good, change, _, _) = delete_blocks_lem sha256_32 ds key c i be few e in
          (after, rw (run, e) refl, good, change)
    ]
